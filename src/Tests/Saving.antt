-- ===== src/Tests/Saving.antt =====
-- A file of three paragraphs, saved with an engine that splits at blank lines.
use noto.Common.{
  ◌↔◌, All, ◌+◌, ◌≢◌, length, ap, slice, Option, All-get_elem?, get_elem?, ◌<◌, arith, none, ◌≡◌,
  refl, ℕ, false, ◌&&◌, some, List, [], ◌∷◌, ◌++◌, if◌then◌else◌, ◌==◌, nat_eq, bool_eq, list_eq,
  Text, codes,
}
use noto.Contracts.{
  Block, Document, EditUnit, Transaction, blocks, paragraph, lf, no_bom, mixed, TargetEnvelope,
  same_origin, LineEnding-discrete, BlockKind-discrete,
}
use noto.Windows.{
  BlockSpan, SplitDocument, check_window, check_spans, verification_windows, windows_from,
}
use noto.Document.{parsed, parse_document}
use noto.Serialize.{
  multi_block_unit, BlockEngine, engine_failed, SerializeResult, Serialized, serialized, refused,
  SingleBlock, FailureCode, unconverted_line_ending,
}
use noto.Serialize.Identity.{identity_preserved_ranges, is_byte_identity_save, all_pristine_from}
use noto.Serialize.Save.{
  serialize_document, identity_transaction, check_transaction, serialize_blocks,
}
use noto.LineEndings.{detect_line_ending, to_lf, from_lf}
use noto.Revision.BlockId.{make_block_id}
use noto.Document.Named.{IsRevision, parse_document-IsRevision}
use noto.Serialize.Save.Sound.{IsSound, serialize_document-IsSound}
use noto.Serialize.Save.Guards.{
  Accepts, serialize_document-Accepts, serialize_document_stale, opened, saved, Session-IsRevision,
  Session,
}
use noto.Serialize.Units.{
  validate_origins, validate_from, check_origin, is_pristine, matches_markdown, unit_markdown,
}
use noto.Serialize.Single.{
  single_block_edit_index, dirty_from, dirty_with_gaps, serialize_single_block_edit, save_single,
  shifted_spans, shifted_span, encode_output,
}
use noto.Serialize.Gaps.{gap_after, includes_blank_line, gap_between, kept_gap}
use noto.Serialize.Windows.{effective_texts, check_windows, window_text}
use noto.Common.Maps.{has, add}
use mathlib.Core.Bool.{decide}
use noto.Serialize.Next.{build_next_document, reparsed_at}
use noto.Document.Order.{InOrder}
use noto.Serialize.Single.Bytes.{serialize_single_block_edit-reads}
use noto.Serialize.Region.{
  serialize_contiguous_region, run_up, run_down, emit_region, emit_middle, emit_gap, emit_prefix,
  emit_piece, emit_suffix, unit_source, copied_spans, copied_gaps, save_region, region_dirty,
}
use noto.Serialize.Region.Reading.{read_middle, read_windows, read_window, must_read, read_unit}
use noto.Serialize.Units.Sound.{IsUnit, Rising, NoneTwice, origins, validate_origins_iff}
use noto.Serialize.Region.Bytes.{WrittenAs, serialize_contiguous_region-reads}
use noto.Serialize.Save.Reopen.{serialize_document-parse_document}

abbrev span_of : ℕ → Text → BlockSpan
span_of start text = record {
  kind = paragraph;
  start = start;
  end = start + length text;
  markdown = text;
  semantic_key = codes "p";
}

-- The paragraphs of a text, where one starts at `start` and was read as far as `current`.
abbrev paragraphs : ℕ → Text → Text → List BlockSpan
paragraphs start current [] = span_of start current ∷ []
paragraphs start current (c ∷ []) = span_of start (current ++ c ∷ []) ∷ []
paragraphs start current (c ∷ x ∷ rest) =
    let next = paragraphs (start + length current + 2) [] rest in
    let longer = paragraphs start (current ++ c ∷ []) (x ∷ rest) in
    if c == 10 && x == 10 then span_of start current ∷ next else longer

abbrev gaps_between : List BlockSpan → List Text
gaps_between [] = []
gaps_between (span ∷ []) = []
gaps_between (span ∷ more ∷ spans) = (10 ∷ 10 ∷ []) ∷ gaps_between (more ∷ spans)

abbrev split_paragraphs : Text → SplitDocument
split_paragraphs text = record {
  spans = paragraphs 0 [] text;
  leading = [];
  gaps = gaps_between (paragraphs 0 [] text);
  trailing = [];
}

abbrev one_block : List BlockSpan → Option SingleBlock
one_block (span ∷ []) = some (record { kind = span.kind; semantic_key = span.semantic_key })
one_block _ = none

abbrev pub plain_engine : BlockEngine
plain_engine = record {
  host = record {
    decode = λ bytes. some bytes;
    sha256_bytes = λ bytes. bytes;
    sha256_text = λ text. text;
    split_blocks = split_paragraphs;
  };
  encode = λ text. text;
  split_slice = split_paragraphs;
  parse_single_block = λ text. one_block (paragraphs 0 [] text);
  serialize = λ d units target. engine_failed (codes "EMPTY_UNIT");
}

abbrev pub file : List ℕ
file = codes "ab" ++ 10 ∷ 10 ∷ codes "cd" ++ 10 ∷ 10 ∷ codes "ef"

abbrev block_at : ℕ → ℕ → Text → Text → Block
block_at n start text id = record {
  version = 3;
  id = id;
  kind = paragraph;
  start = start;
  end = start + 2;
  markdown = text;
  sha256 = text;
  semantic_key = codes "p";
  origin = record { block_id = id; ordinal = n; kind = paragraph; semantic_key = codes "p" };
}

abbrev pub opened_file : Document
opened_file = record {
  version = 3;
  document_id = codes "noto-doc-v3:" ++ file;
  revision_id = codes "noto-rev-v3:" ++ file;
  envelope = record {
    version = 3;
    byte_length = 10;
    bom = no_bom;
    line_ending = lf;
    has_final_newline = false;
    source_sha256 = file;
  };
  original_bytes = file;
  text = file;
  blocks =
      block_at 0 0 (codes "ab") (codes "noto-block-v3:0:ab")
      ∷ block_at 1 4 (codes "cd") (codes "noto-block-v3:1:cd")
      ∷ block_at 2 8 (codes "ef") (codes "noto-block-v3:2:ef")
      ∷ [];
  gaps =
      record { before_ordinal = 0; text = 10 ∷ 10 ∷ [] }
      ∷ record { before_ordinal = 1; text = 10 ∷ 10 ∷ [] }
      ∷ [];
  leading = [];
  trailing = [];
}

pub file_is_opened : parse_document plain_engine.host file ≡ parsed opened_file
unfolding parse_document detect_line_ending make_block_id to_lf
file_is_opened = refl

blocks_filled :
    (n : ℕ) (b : Block) → get_elem? opened_file.blocks n ≡ some b → 0 < length b.markdown
blocks_filled n b h =
    All-get_elem? (λ x. 0 < length x.markdown) opened_file.blocks n b
      (omega arith, (omega arith, (omega arith, tt))) h

serialize_document-parse_document_example :
    serialize_document plain_engine opened_file (identity_transaction opened_file)
    ≡ serialized (record {
      output_bytes = file;
      output_sha256 = file;
      document = opened_file;
      preserved = identity_preserved_ranges plain_engine.host opened_file;
    })
serialize_document-parse_document_example =
    serialize_document-parse_document plain_engine file opened_file file_is_opened blocks_filled

abbrev unchanged : Block → EditUnit
unchanged b = record { origin = some b.origin; markdown = none }

abbrev second : Block
second = block_at 1 4 (codes "cd") (codes "noto-block-v3:1:cd")

abbrev edited : EditUnit
edited = record { origin = some second.origin; markdown = some (codes "xyz") }

abbrev inserted : EditUnit
inserted = record { origin = none; markdown = some (codes "gh") }

abbrev pub edit_units : List EditUnit
edit_units =
    unchanged (block_at 0 0 (codes "ab") (codes "noto-block-v3:0:ab"))
    ∷ edited
    ∷ unchanged (block_at 2 8 (codes "ef") (codes "noto-block-v3:2:ef"))
    ∷ []

abbrev insert_units : List EditUnit
insert_units =
    unchanged (block_at 0 0 (codes "ab") (codes "noto-block-v3:0:ab"))
    ∷ inserted
    ∷ unchanged second
    ∷ unchanged (block_at 2 8 (codes "ef") (codes "noto-block-v3:2:ef"))
    ∷ []

abbrev pub same_envelope : TargetEnvelope
same_envelope = record { line_ending = mixed; has_final_newline = false }

abbrev pub edit : Transaction
edit = blocks (record {
  version = 3;
  document_id = opened_file.document_id;
  revision_id = opened_file.revision_id;
  units = edit_units;
  envelope = same_envelope;
})

abbrev saved_or_nothing : SerializeResult → Serialized
saved_or_nothing (serialized s) = s
saved_or_nothing (refused code bytes) = record {
  output_bytes = [];
  output_sha256 = [];
  document = opened_file;
  preserved = [];
}

abbrev pub edit_saved : Serialized
edit_saved = saved_or_nothing (serialize_document plain_engine opened_file edit)

edit_bytes : edit_saved.output_bytes ≡ codes "ab" ++ 10 ∷ 10 ∷ codes "xyz" ++ 10 ∷ 10 ∷ codes "ef"
unfolding serialize_document check_transaction serialize_blocks validate_origins validate_from
    check_origin same_origin is_byte_identity_save all_pristine_from is_pristine matches_markdown
    single_block_edit_index dirty_from dirty_with_gaps gap_after includes_blank_line
    serialize_single_block_edit unit_markdown save_single effective_texts check_windows window_text
    check_window check_spans verification_windows windows_from shifted_spans shifted_span
    encode_output unconverted_line_ending to_lf from_lf has add LineEnding-discrete
    BlockKind-discrete decide
edit_bytes = refl

pub edit_is_saved : serialize_document plain_engine opened_file edit ≡ serialized edit_saved
unfolding serialize_document check_transaction serialize_blocks validate_origins validate_from
    check_origin same_origin is_byte_identity_save all_pristine_from is_pristine matches_markdown
    single_block_edit_index dirty_from dirty_with_gaps gap_after includes_blank_line
    serialize_single_block_edit unit_markdown save_single effective_texts check_windows window_text
    check_window check_spans verification_windows windows_from shifted_spans shifted_span
    encode_output unconverted_line_ending to_lf from_lf has add LineEnding-discrete
    BlockKind-discrete decide
edit_is_saved = refl

file-IsRevision : IsRevision plain_engine.host opened_file
file-IsRevision = parse_document-IsRevision plain_engine.host file opened_file file_is_opened

serialize_document-IsSound_example :
    IsSound plain_engine opened_file (serialize_document plain_engine opened_file edit)
serialize_document-IsSound_example =
    serialize_document-IsSound plain_engine opened_file file-IsRevision edit

edit_session : Session plain_engine edit_saved.document
edit_session =
    saved opened_file edit edit_saved (opened file opened_file file_is_opened) edit_is_saved

Session-IsRevision_example : IsRevision plain_engine.host edit_saved.document
Session-IsRevision_example = Session-IsRevision plain_engine edit_saved.document edit_session

serialize_document-Accepts_example : Accepts opened_file edit
serialize_document-Accepts_example =
    serialize_document-Accepts plain_engine opened_file edit edit_saved edit_is_saved

saved-IsRevision : IsRevision plain_engine.host edit_saved.document
saved-IsRevision = Session-IsRevision plain_engine edit_saved.document edit_session

edit_size : length edit_saved.document.original_bytes ≡ 11
unfolding serialize_document check_transaction serialize_blocks validate_origins validate_from
    check_origin same_origin is_byte_identity_save all_pristine_from is_pristine matches_markdown
    single_block_edit_index dirty_from dirty_with_gaps gap_after includes_blank_line
    serialize_single_block_edit unit_markdown save_single effective_texts check_windows window_text
    check_window check_spans verification_windows windows_from shifted_spans shifted_span
    encode_output unconverted_line_ending to_lf from_lf has add LineEnding-discrete
    BlockKind-discrete decide build_next_document
edit_size = refl

bytes_differ : file ≢ edit_saved.document.original_bytes
bytes_differ h = omega (arith, ap length h, edit_size)

-- the same edit once more, after it was saved
serialize_document_stale_example :
    (code : FailureCode) × (serialize_document plain_engine edit_saved.document edit
      ≡ refused code edit_saved.document.original_bytes)
serialize_document_stale_example =
    serialize_document_stale plain_engine edit_saved.document opened_file edit file-IsRevision
      saved-IsRevision refl bytes_differ

file-InOrder : InOrder 0 10 opened_file.blocks
file-InOrder =
    (omega arith, omega arith, (omega arith, omega arith, (omega arith, omega arith, omega arith)))

single_is_saved :
    serialize_single_block_edit plain_engine opened_file edit_units same_envelope 1
    ≡ serialized edit_saved
unfolding serialize_document check_transaction serialize_blocks validate_origins validate_from
    check_origin same_origin is_byte_identity_save all_pristine_from is_pristine matches_markdown
    single_block_edit_index dirty_from dirty_with_gaps gap_after includes_blank_line
    serialize_single_block_edit unit_markdown save_single effective_texts check_windows window_text
    check_window check_spans verification_windows windows_from shifted_spans shifted_span
    encode_output unconverted_line_ending to_lf from_lf has add LineEnding-discrete
    BlockKind-discrete decide build_next_document
single_is_saved = refl

-- what a save left at a place
abbrev block_or_first : Option Block → Block
block_or_first none = block_at 0 0 [] []
block_or_first (some b) = b

abbrev moved_last : Block
moved_last = block_or_first (get_elem? edit_saved.document.blocks 2)

last_is_there : get_elem? edit_saved.document.blocks 2 ≡ some moved_last
unfolding serialize_document check_transaction serialize_blocks validate_origins validate_from
    check_origin same_origin is_byte_identity_save all_pristine_from is_pristine matches_markdown
    single_block_edit_index dirty_from dirty_with_gaps gap_after includes_blank_line
    serialize_single_block_edit unit_markdown save_single effective_texts check_windows window_text
    check_window check_spans verification_windows windows_from shifted_spans shifted_span
    encode_output unconverted_line_ending to_lf from_lf has add LineEnding-discrete
    BlockKind-discrete decide build_next_document
last_is_there = refl

serialize_single_block_edit-reads_example :
    slice moved_last.start moved_last.end edit_saved.document.text ≡ codes "ef"
unfolding unit_markdown
serialize_single_block_edit-reads_example =
    serialize_single_block_edit-reads plain_engine opened_file edit_units same_envelope 1 2 second
      (block_at 2 8 (codes "ef") (codes "noto-block-v3:2:ef")) moved_last edited (codes "xyz")
      edit_saved file-InOrder refl refl refl single_is_saved refl last_is_there

abbrev result_or_refusal : Option SerializeResult → SerializeResult
result_or_refusal none = refused multi_block_unit []
result_or_refusal (some r) = r

abbrev insert_saved : Serialized
insert_saved = saved_or_nothing (
    result_or_refusal
      (serialize_contiguous_region plain_engine opened_file insert_units same_envelope))

insert_is_saved :
    serialize_contiguous_region plain_engine opened_file insert_units same_envelope
    ≡ some (serialized insert_saved)
unfolding serialize_contiguous_region unconverted_line_ending run_up run_down is_pristine
    matches_markdown emit_region emit_middle emit_gap emit_prefix emit_piece emit_suffix unit_source
    unit_markdown copied_spans copied_gaps gap_between kept_gap gap_after includes_blank_line
    save_region effective_texts check_windows window_text check_window check_spans
    verification_windows windows_from region_dirty read_middle read_windows read_window must_read
    read_unit reparsed_at encode_output to_lf from_lf LineEnding-discrete decide
insert_is_saved = refl

abbrev shifted_second : Block
shifted_second = block_or_first (get_elem? insert_saved.document.blocks 2)

second_is_there : get_elem? insert_saved.document.blocks 2 ≡ some shifted_second
unfolding serialize_contiguous_region unconverted_line_ending run_up run_down is_pristine
    matches_markdown emit_region emit_middle emit_gap emit_prefix emit_piece emit_suffix unit_source
    unit_markdown copied_spans copied_gaps gap_between kept_gap gap_after includes_blank_line
    save_region effective_texts check_windows window_text check_window check_spans
    verification_windows windows_from region_dirty read_middle read_windows read_window must_read
    read_unit reparsed_at encode_output to_lf from_lf LineEnding-discrete decide build_next_document
second_is_there = refl

serialize_contiguous_region-reads_example :
    WrittenAs plain_engine opened_file lf
      (unchanged second)
      (slice shifted_second.start shifted_second.end insert_saved.document.text)
serialize_contiguous_region-reads_example =
    serialize_contiguous_region-reads plain_engine opened_file insert_units same_envelope
      insert_saved 2 (unchanged second) shifted_second file-InOrder insert_is_saved refl
      second_is_there

validate_origins_iff_example : (validate_origins opened_file edit_units ≡ none) ↔ (
    All (λ u. IsUnit opened_file u.origin u.markdown) edit_units
    × (Rising none (origins edit_units) × NoneTwice [] (origins edit_units)))
validate_origins_iff_example = validate_origins_iff opened_file edit_units
