-- ===== src/Serialize/FromEngine.antt =====
-- The save that the engine assembles: `toEngineDocument` and `toSerializeUnits` of
-- src/shared/markdown/v3/roobli-md-adapter.ts; `ENGINE_FAIL_CODES`, `hashPreservedRanges` and
-- `nextRevisionFromEngine` of serialize.ts.
use noto.Common.{
  ℕ, ◌+◌, ◌-◌, Bool, true, false, not, ◌&&◌, ◌||◌, Option, none, some, List, [], ◌∷◌, map,
  if◌then◌else◌, ◌==◌, nat_eq, bool_eq, list_eq, length, get_elem?, slice, Text, codes,
}
use noto.Contracts.{Block, BlockOrigin, Document, EditUnit, Span}
use noto.Document.{Host}
use noto.Windows.{Window, ReparsedBlock, verification_windows}
use noto.Serialize.{
  BlockEngine, EngineBlock, EngineDocument, EngineUnit, EngineRange, EngineSaved, PreservedRange,
  PreservedRole, bom_range, block_range, FailureCode, empty_unit, forged_origin, duplicate_origin,
  reordered_origin, multi_block_unit,
}
use noto.Serialize.Units.{is_pristine, pristine_unit}
use noto.Serialize.Identity.{utf8_bom}
use noto.Serialize.Windows.{effective_texts, check_windows}
use noto.Serialize.Next.{build_next_document}

abbrev pub engine_block : Block → EngineBlock
engine_block block = record {
  kind = block.kind;
  start = block.start;
  end = block.end;
  markdown = block.markdown;
}

unfoldable pub to_engine_document : Document → EngineDocument
to_engine_document d = record {
  byte_length = d.envelope.byte_length;
  bom = d.envelope.bom;
  line_ending = d.envelope.line_ending;
  has_final_newline = d.envelope.has_final_newline;
  text = d.text;
  blocks = map engine_block d.blocks;
  gaps = map (λ gap. gap.text) d.gaps;
  leading = d.leading;
  trailing = d.trailing;
}

abbrev pub origin_ordinal : Option BlockOrigin → Option ℕ
origin_ordinal none = none
origin_ordinal (some origin) = some origin.ordinal

unfoldable pub to_serialize_units : List EditUnit → List EngineUnit
to_serialize_units units =
    map (λ u. record { origin = origin_ordinal u.origin; markdown = u.markdown }) units

unfoldable pub engine_fail_code : Text → FailureCode
engine_fail_code code =
    if code == codes "EMPTY_UNIT"
    then empty_unit
    else if code == codes "FORGED_ORIGIN"
    then forged_origin
    else if code == codes "DUPLICATE_ORIGIN"
    then duplicate_origin
    else if code == codes "REORDERED_ORIGIN"
    then reordered_origin
    else multi_block_unit

-- `blockBySpan.get`: the first block with a span
unfoldable pub block_by_span : ℕ → ℕ → List Block → Option Block
block_by_span start end [] = none
block_by_span start end (block ∷ blocks) =
    if block.start == start && block.end == end then some block else block_by_span start end blocks

module _ (host : Host) (d : Document) where
  unfoldable pub range_digest : PreservedRole → ℕ → ℕ → Text
  range_digest bom_range start end = host.sha256_bytes utf8_bom
  range_digest block_range start end = elim (block_by_span start end d.blocks) [
    | none ↦ host.sha256_text (slice start end d.text)
    | some block ↦ block.sha256
  ]
  range_digest _ start end = host.sha256_text (slice start end d.text)

  unfoldable pub hash_preserved_ranges : List EngineRange → List PreservedRange
  unfolding range_digest
  hash_preserved_ranges ranges =
      map
        (λ range. record {
          role = range.role;
          start = range.start;
          end = range.end;
          sha256 = range_digest range.role range.start range.end;
        })
        ranges

-- The unit comes from the block after that of the unit before, or from the first block.
abbrev pub follows : Option EditUnit → ℕ → Bool
follows none ordinal = ordinal == 0
follows (some previous) ordinal = elim previous.origin [
  | none ↦ false
  | some origin ↦ origin.ordinal + 1 == ordinal
]

abbrev pub is_last : List EditUnit → Bool
is_last [] = true
is_last (u ∷ units) = false

-- What a unit makes necessary to check, with the unit before it and those after.
unfoldable pub must_verify : Document → Option EditUnit → EditUnit → List EditUnit → Bool
must_verify d previous u rest = elim u.origin [
  | none ↦ true
  | some origin ↦
      if not (is_pristine u (get_elem? d.blocks origin.ordinal))
      then true
      else if not (follows previous origin.ordinal)
      then true
      else is_last rest && not (origin.ordinal + 1 == length d.blocks)
]

-- `verify`
unfoldable pub verify_flags : Document → Option EditUnit → List EditUnit → List Bool
unfolding must_verify
verify_flags d previous [] = []
verify_flags d previous (u ∷ units) = must_verify d previous u units ∷ verify_flags d (some u) units

module _ (e : BlockEngine) (d : Document) (units : List EditUnit) (effective : List Text) where
  -- The loop over the blocks of a window; a text that is missing, at which the code throws, is
  -- skipped like a unit that did not change. A later entry hides an earlier one of its index.
  unfoldable pub note_window :
      ℕ → List ReparsedBlock → List (ℕ × ReparsedBlock) → Option (List (ℕ × ReparsedBlock))
  note_window index [] known = some known
  note_window index (block ∷ blocks) known =
      let skipped = note_window (index + 1) blocks known in
      elim (get_elem? units index) [
        | none ↦ skipped
        | some u ↦ if pristine_unit d u then skipped else elim (get_elem? effective index) [
          | none ↦ skipped
          | some markdown ↦ elim (e.parse_single_block markdown) [
            | none ↦ none
            | some single ↦ note_window (index + 1) blocks (
                (
                  index,
                  record {
                    kind = single.kind;
                    semantic_key = single.semantic_key;
                    markdown = block.markdown;
                  },
                )
                ∷ known)
          ]
        ]
      ]

  unfoldable pub note_windows :
      List (Window × List ReparsedBlock)
      → List (ℕ × ReparsedBlock)
      → Option (List (ℕ × ReparsedBlock))
  unfolding note_window
  note_windows [] known = some known
  note_windows ((window, blocks) ∷ windows) known = elim (note_window window.from blocks known) [
    | none ↦ none
    | some more ↦ note_windows windows more
  ]

-- `unitStart` and `unitEnd`
abbrev pub engine_spans : EngineDocument → List Span
engine_spans next = map (λ block. record { start = block.start; end = block.end }) next.blocks

unfoldable pub next_revision_from_engine :
    BlockEngine → Document → List EditUnit → EngineSaved → Option Document
unfolding verify_flags note_windows
next_revision_from_engine e d units saved =
    let next = saved.document in
    let spans = engine_spans next in
    if not (length next.blocks == length units) || not (length next.gaps == length units - 1)
    then none
    else elim (effective_texts d units) [
      | none ↦ none
      | some effective ↦
          elim (check_windows e saved.text spans effective
            (verification_windows (verify_flags d none units))) [
              | none ↦ none
              | some windows ↦ elim (note_windows e d units effective windows []) [
                | none ↦ none
                | some reparsed ↦ some (
                    build_next_document e.host d (record {
                      output_text = saved.text;
                      output_bytes = saved.output_bytes;
                      line_ending = next.line_ending;
                      units = units;
                      effective = effective;
                      spans = spans;
                      gaps = next.gaps;
                      leading = next.leading;
                      trailing = next.trailing;
                      reparsed = reparsed;
                    }))
              ]
            ]
    ]
