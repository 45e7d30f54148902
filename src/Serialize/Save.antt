-- ===== src/Serialize/Save.antt =====
-- `serializeBlocksViaRoobli`, `serializeDocument` and `identityTransaction` of serialize.ts.
pub mod Identity
pub mod Reopen
pub mod Guards
pub mod Sound
use noto.Common.{
  ℕ, Bool, true, false, not, ◌&&◌, ◌||◌, Option, none, some, List, [], ◌∷◌, map, if◌then◌else◌,
  ◌==◌, nat_eq, bool_eq, list_eq, length, all, Text,
}
use noto.Contracts.{
  Block, Document, EditUnit, TargetEnvelope, Transaction, blocks, source, markdown_version, mixed,
  SourceTransaction,
}
use noto.LineEndings.{to_lf}
use noto.Document.{parsed, invalid_utf8, parse_document}
use noto.Serialize.{
  BlockEngine, EngineSaved, engine_saved, engine_failed, SerializeResult, serialized, fail,
  FailureCode, unsupported_version, wrong_document, stale_revision, reparse_mismatch,
  invalid_full_source,
}
use noto.Serialize.Units.{validate_origins, pristine_unit}
use noto.Serialize.Identity.{is_byte_identity_save, byte_identity_result}
use noto.Serialize.Windows.{effective_texts}
use noto.Serialize.Single.{single_block_edit_index, serialize_single_block_edit}
use noto.Serialize.Region.{serialize_contiguous_region}
use noto.Serialize.FromEngine.{
  to_engine_document, to_serialize_units, engine_fail_code, hash_preserved_ranges,
  next_revision_from_engine,
}

-- The loop over the blocks that were read and the texts that they were to have.
unfoldable pub reads_back : List Block → List Text → Bool
reads_back [] [] = true
reads_back (block ∷ read) (text ∷ expected) =
    to_lf block.markdown == to_lf text && reads_back read expected
reads_back _ _ = false

module _ (e : BlockEngine) (d : Document) where
  -- The checks after the whole output was read: nothing if it reads back as it has to.
  unfoldable pub check_reparse : List EditUnit → List Block → Option FailureCode
  unfolding reads_back
  check_reparse units read =
      if all (pristine_unit d) units then none else elim (effective_texts d units) [
        | none ↦ some reparse_mismatch
        | some expected ↦
            if not (length read == length units)
            then some reparse_mismatch
            else if reads_back read expected
            then none
            else some reparse_mismatch
      ]

  -- A result of the engine, with a document.
  abbrev pub saved_as : EngineSaved → Document → SerializeResult
  saved_as saved document = serialized (record {
    output_bytes = saved.output_bytes;
    output_sha256 = e.host.sha256_bytes saved.output_bytes;
    document = document;
    preserved = hash_preserved_ranges e.host d saved.preserved;
  })

  -- The whole output is read again.
  unfoldable pub full_reparse : List EditUnit → EngineSaved → SerializeResult
  unfolding check_reparse
  full_reparse units saved = elim (parse_document e.host saved.output_bytes) [
    | invalid_utf8 bytes ↦ fail d reparse_mismatch
    | parsed read ↦ elim (check_reparse units read.blocks) [
      | some code ↦ fail d code
      | none ↦ saved_as saved (record read { document_id = d.document_id })
    ]
  ]

  unfoldable pub save_via_engine : List EditUnit → TargetEnvelope → SerializeResult
  unfolding full_reparse
  save_via_engine units target =
      elim (e.serialize (to_engine_document d) (to_serialize_units units) target) [
        | engine_failed code ↦ fail d (engine_fail_code code)
        | engine_saved saved ↦
            if saved.text == d.text
            then saved_as saved d
            else elim (next_revision_from_engine e d units saved) [
              | some document ↦ saved_as saved document
              | none ↦ full_reparse units saved
            ]
      ]

  unfoldable pub serialize_blocks : List EditUnit → TargetEnvelope → SerializeResult
  serialize_blocks units target = elim (validate_origins d units) [
    | some code ↦ fail d code
    | none ↦
        if is_byte_identity_save d units target
        then byte_identity_result e.host d
        else elim (single_block_edit_index d units target) [
          | some index ↦ serialize_single_block_edit e d units target index
          | none ↦ elim (serialize_contiguous_region e d units target) [
            | some result ↦ result
            | none ↦ save_via_engine units target
          ]
        ]
  ]

  unfoldable pub serialize_source : SourceTransaction → SerializeResult
  serialize_source t =
      if not (t.expected_source_sha256 == d.envelope.source_sha256)
      then fail d stale_revision
      else elim (parse_document e.host t.source_bytes) [
        | invalid_utf8 bytes ↦ fail d invalid_full_source
        | parsed read ↦ serialized (record {
          output_bytes = t.source_bytes;
          output_sha256 = e.host.sha256_bytes t.source_bytes;
          document = record read { document_id = d.document_id };
          preserved = [];
        })
      ]

  -- The checks that both modes share.
  unfoldable pub check_transaction : ℕ → Text → Text → Option FailureCode
  check_transaction version document_id revision_id =
      if not (version == markdown_version) || not (d.version == markdown_version)
      then some unsupported_version
      else if not (document_id == d.document_id)
      then some wrong_document
      else if not (revision_id == d.revision_id)
      then some stale_revision
      else none

  unfoldable pub serialize_document : Transaction → SerializeResult
  serialize_document (blocks t) = elim (check_transaction t.version t.document_id t.revision_id) [
    | some code ↦ fail d code
    | none ↦ serialize_blocks t.units t.envelope
  ]
  serialize_document (source t) = elim (check_transaction t.version t.document_id t.revision_id) [
    | some code ↦ fail d code
    | none ↦ serialize_source t
  ]

unfoldable pub identity_transaction : Document → Transaction
identity_transaction d = blocks (record {
  version = markdown_version;
  document_id = d.document_id;
  revision_id = d.revision_id;
  units =
      map (λ block. record { origin = some block.origin; markdown = some block.markdown }) d.blocks;
  envelope = record { line_ending = mixed; has_final_newline = d.envelope.has_final_newline };
})
