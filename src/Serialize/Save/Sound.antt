-- ===== src/Serialize/Save/Sound.antt =====
-- What holds of every result of a save, whichever way it takes.
use noto.Common.{
  sym, ap, inl, inr, [], ◌||◌, Option-cases, ◌-◌, length, get_elem?, ◌==◌, nat_eq, not, ℕ, ◌≡◌,
  refl, Option, none, some, List, bool_eq, list_eq, Text,
}
use mathlib.Core.Path.{subst}
use mathlib.Core.Option.{some-injective}
use noto.Contracts.{
  Block, Document, EditUnit, TargetEnvelope, LineEnding, SourceTransaction, Transaction, blocks,
  source,
}
use noto.Windows.{ReparsedBlock, verification_windows}
use noto.Serialize.Units.{unit_markdown, validate_origins}
use noto.Serialize.Windows.{check_windows, effective_texts}
use noto.Serialize.Region.{
  save_region, serialize_contiguous_region, Emission, region_dirty, emit_region,
  pristine_prefix_len, pristine_suffix_len,
}
use noto.Serialize.Cases.{case_option, case_some, case_bool, case_parsed, case_engine}
use noto.Document.Named.{parse_document-IsRevision, IsRevision}
use noto.Document.{parse_document}
use noto.Serialize.Identity.{is_byte_identity_save, byte_identity_result}
use noto.Serialize.Single.{single_block_edit_index, serialize_single_block_edit, save_single}
use noto.Serialize.FromEngine.{
  engine_spans, verify_flags, next_revision_from_engine, note_windows, to_engine_document,
  to_serialize_units,
}
use noto.Serialize.Save.{
  saved_as, full_reparse, check_reparse, save_via_engine, serialize_blocks, serialize_source,
  check_transaction, serialize_document,
}
use noto.Serialize.{
  unconverted_line_ending, EngineSaved, fail, FailureCode, BlockEngine, PreservedRange,
  SerializeResult, serialized, refused,
}
use noto.Serialize.Next.{NextInput, build_next_document}
use noto.Serialize.Next.Named.{build_next_document-IsRevision}

-- A refusal gives back the bytes that were read; a success hashes what it writes, keeps the identity
-- of the document and leaves a revision that describes itself.
abbrev pub IsSound : BlockEngine → Document → SerializeResult → Type 0
IsSound e d (refused code bytes) = bytes ≡ d.original_bytes
IsSound e d (serialized s) =
    (s.output_sha256 ≡ e.host.sha256_bytes s.output_bytes)
    × (s.document.document_id ≡ d.document_id)
    × IsRevision e.host s.document

-- The same, as a type of its own.
record Checked (e : BlockEngine) (d : Document) (result : SerializeResult) : Type 0 where
  holds : IsSound e d result

module _ (e : BlockEngine) (d : Document) (known : IsRevision e.host d) where
  refused-Checked : (code : FailureCode) → Checked e d (fail d code)
  refused-Checked code = record { holds = refl }

  built-Checked :
      (input : NextInput) (preserved : List PreservedRange)
      → Checked e d (
          serialized (record {
            output_bytes = input.output_bytes;
            output_sha256 = e.host.sha256_bytes input.output_bytes;
            document = build_next_document e.host d input;
            preserved = preserved;
          }))
  unfolding build_next_document
  built-Checked input preserved = record {
    holds = (refl, refl, build_next_document-IsRevision e.host d known.4 input);
  }

  save_single-Checked :
      (units : List EditUnit) (target : TargetEnvelope) (dirty : ℕ) (block : Block)
      (markdown : Text) (facts : ReparsedBlock)
      → Checked e d (save_single e d units target dirty block markdown facts)
  unfolding save_single
  save_single-Checked units target dirty block markdown facts =
      case_option (Checked e d) (effective_texts d units) (refused-Checked _) (λ effective.
        case_option (Checked e d) _ (refused-Checked _) (λ windows. built-Checked _ _))

  serialize_single_block_edit-Checked :
      (units : List EditUnit) (target : TargetEnvelope) (dirty : ℕ)
      → Checked e d (serialize_single_block_edit e d units target dirty)
  unfolding serialize_single_block_edit
  serialize_single_block_edit-Checked units target dirty =
      case_option (Checked e d) (get_elem? d.blocks dirty) (refused-Checked _) (λ block.
        case_option (Checked e d) (get_elem? units dirty) (refused-Checked _) (λ u.
          case_option (Checked e d) (unit_markdown d u) (refused-Checked _) (λ markdown.
            case_option (Checked e d) (e.parse_single_block markdown) (refused-Checked _)
              (λ single. save_single-Checked units target dirty block markdown _))))

  -- A result that is not there is left to the next way of saving.
  record CheckedIfAny (result : Option SerializeResult) : Type 0 where
    if_any : (r : SerializeResult) → result ≡ some r → Checked e d r

  none-CheckedIfAny : CheckedIfAny none
  none-CheckedIfAny = record { if_any = λ r h. absurd (cc) }

  some-CheckedIfAny : (r : SerializeResult) → Checked e d r → CheckedIfAny (some r)
  some-CheckedIfAny r c = record { if_any = λ x h. subst (Checked e d) (some-injective r x h) c }

  save_region-CheckedIfAny :
      (units : List EditUnit) (target : TargetEnvelope) (line_ending : LineEnding)
      (prefix_len suffix_len : ℕ) (out : Emission)
      → CheckedIfAny (save_region e d units target line_ending prefix_len suffix_len out)
  unfolding save_region
  save_region-CheckedIfAny units target line_ending prefix_len suffix_len out =
      case_bool CheckedIfAny (not (length out.gaps == length units - 1)) none-CheckedIfAny (
        case_option CheckedIfAny (effective_texts d units) (some-CheckedIfAny _ (refused-Checked _))
          (λ effective.
            case_option CheckedIfAny
              (check_windows e out.text out.spans effective
                (verification_windows (region_dirty d prefix_len suffix_len units)))
              none-CheckedIfAny
              (λ windows.
                case_option CheckedIfAny _ (some-CheckedIfAny _ (refused-Checked _))
                  (λ reparsed. some-CheckedIfAny _ (built-Checked _ _)))))

  serialize_contiguous_region-CheckedIfAny :
      (units : List EditUnit) (target : TargetEnvelope)
      → CheckedIfAny (serialize_contiguous_region e d units target)
  unfolding serialize_contiguous_region
  serialize_contiguous_region-CheckedIfAny units target =
      case_option CheckedIfAny (unconverted_line_ending d target) none-CheckedIfAny (λ line_ending.
        case_bool CheckedIfAny _ none-CheckedIfAny (
          case_option CheckedIfAny
            (emit_region e d units target line_ending (pristine_prefix_len d units)
              (pristine_suffix_len d units))
            (some-CheckedIfAny _ (refused-Checked _))
            (λ out. save_region-CheckedIfAny units target line_ending _ _ out)))

  -- A revision that the engine's assembly gives, if it is proved.
  record IsNext (result : Option Document) : Type 0 where
    if_next :
        (x : Document) → result ≡ some x → (x.document_id ≡ d.document_id) × IsRevision e.host x

  none-IsNext : IsNext none
  none-IsNext = record { if_next = λ x h. absurd (cc) }

  built-IsNext : (input : NextInput) → IsNext (some (build_next_document e.host d input))
  unfolding build_next_document
  built-IsNext input = record {
    if_next = λ x h.
        let is = some-injective (build_next_document e.host d input) x h in
        (
          ap (λ (y : Document). y.document_id) (sym is),
          subst (IsRevision e.host) is (build_next_document-IsRevision e.host d known.4 input),
        );
  }

  next_revision_from_engine-IsNext :
      (units : List EditUnit) (saved : EngineSaved)
      → IsNext (next_revision_from_engine e d units saved)
  unfolding next_revision_from_engine
  next_revision_from_engine-IsNext units saved =
      case_bool IsNext
        (not (length saved.document.blocks == length units)
          || not (length saved.document.gaps == length units - 1))
        none-IsNext
        (case_option IsNext (effective_texts d units) none-IsNext (λ effective.
          case_option IsNext
            (check_windows e saved.text (engine_spans saved.document) effective
              (verification_windows (verify_flags d none units)))
            none-IsNext
            (λ windows.
              case_option IsNext (note_windows e d units effective windows []) none-IsNext
                (λ reparsed. built-IsNext _))))

  saved_as-Checked :
      (saved : EngineSaved) (x : Document)
      → x.document_id ≡ d.document_id
      → IsRevision e.host x
      → Checked e d (saved_as e d saved x)
  saved_as-Checked saved x same revision = record { holds = (refl, same, revision) }

  full_reparse-Checked :
      (units : List EditUnit) (saved : EngineSaved) → Checked e d (full_reparse e d units saved)
  unfolding full_reparse
  full_reparse-Checked units saved =
      case_parsed (Checked e d) (parse_document e.host saved.output_bytes)
        (λ bytes. refused-Checked _)
        (λ read h. elim (Option-cases (check_reparse e d units read.blocks)) [
          | inl x ↦ rw (x) (
              saved_as-Checked saved _ refl
                (parse_document-IsRevision e.host saved.output_bytes read h))
          | inr (code, x) ↦ rw (x) (refused-Checked code)
        ])

  save_via_engine-Checked :
      (units : List EditUnit) (target : TargetEnvelope)
      → Checked e d (save_via_engine e d units target)
  unfolding save_via_engine
  save_via_engine-Checked units target =
      case_engine (Checked e d)
        (e.serialize (to_engine_document d) (to_serialize_units units) target)
        (λ code. refused-Checked _)
        (λ saved.
          case_bool (Checked e d) (saved.text == d.text) (saved_as-Checked saved d refl known) (
            case_some (Checked e d) (next_revision_from_engine e d units saved)
              (full_reparse-Checked units saved)
              (λ x h.
                let (same, revision) = (next_revision_from_engine-IsNext units saved).if_next x h in
                saved_as-Checked saved x same revision)))

  byte_identity_result-Checked : Checked e d (byte_identity_result e.host d)
  unfolding byte_identity_result
  byte_identity_result-Checked = record { holds = (known.2, refl, known) }

  serialize_blocks-Checked :
      (units : List EditUnit) (target : TargetEnvelope)
      → Checked e d (serialize_blocks e d units target)
  unfolding serialize_blocks
  serialize_blocks-Checked units target =
      case_option (Checked e d) (validate_origins d units)
        (case_bool (Checked e d) (is_byte_identity_save d units target) byte_identity_result-Checked
          (case_option (Checked e d) (single_block_edit_index d units target)
            (case_some (Checked e d) (serialize_contiguous_region e d units target)
              (save_via_engine-Checked units target)
              (λ result h. (serialize_contiguous_region-CheckedIfAny units target).if_any result h))
            (λ index. serialize_single_block_edit-Checked units target index)))
        (λ code. refused-Checked code)

  serialize_source-Checked : (t : SourceTransaction) → Checked e d (serialize_source e d t)
  unfolding serialize_source
  serialize_source-Checked t =
      case_bool (Checked e d) (not (t.expected_source_sha256 == d.envelope.source_sha256))
        (refused-Checked _)
        (case_parsed (Checked e d) (parse_document e.host t.source_bytes)
          (λ bytes. refused-Checked _)
          (λ read h. record {
            holds = (refl, refl, parse_document-IsRevision e.host t.source_bytes read h);
          }))

  -- Whatever the transaction and the engine, a save of a document that describes itself either is
  -- refused and gives back the bytes that were read, or it names the hash of the bytes it writes,
  -- keeps the identity of the document, and leaves a revision that describes itself: its ids and
  -- hashes are those of its bytes, and each block's place, id and hash are its own.
  pub serialize_document-IsSound : (t : Transaction) → IsSound e d (serialize_document e d t)
  unfolding serialize_document
  serialize_document-IsSound (blocks t) =
      (case_option (Checked e d) (check_transaction e d t.version t.document_id t.revision_id)
        (serialize_blocks-Checked t.units t.envelope) (λ code. refused-Checked code)).holds
  serialize_document-IsSound (source t) =
      (case_option (Checked e d) (check_transaction e d t.version t.document_id t.revision_id)
        (serialize_source-Checked t) (λ code. refused-Checked code)).holds
