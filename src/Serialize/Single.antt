-- ===== src/Serialize/Single.antt =====
-- One block was edited: `singleBlockEditIndex` and `serializeSingleBlockEdit` of serialize.ts.
pub mod Bytes
use noto.Common.{
  ℕ, ◌+◌, ◌-◌, Bool, false, not, ◌&&◌, ◌||◌, Option, none, some, List, [], ◌∷◌, ◌++◌, map, ltb,
  if◌then◌else◌, is_some, ◌==◌, nat_eq, bool_eq, list_eq, length, get_elem?, take, drop, Text,
}
use noto.Contracts.{Block, Document, EditUnit, TargetEnvelope, Bom, utf8, no_bom, Span}
use noto.LineEndings.{to_lf, from_lf}
use noto.Windows.{verification_windows, ReparsedBlock}
use noto.Serialize.{
  BlockEngine, SerializeResult, serialized, fail, multi_block_unit, reparse_mismatch,
  unconverted_line_ending, target_ending,
}
use noto.Serialize.Units.{is_pristine, unit_markdown}
use noto.Serialize.Gaps.{gap_after, includes_blank_line}
use noto.Serialize.Identity.{
  has_ordinal, utf8_bom, bom_evidence, leading_evidence, blocks_evidence, trailing_evidence,
}
use noto.Serialize.Windows.{effective_texts, check_windows}
use noto.Serialize.Next.{build_next_document}

-- The loop over the units: the one that changed, so far; nothing if there are two or one is not in
-- its place.
unfoldable pub dirty_from : Document → ℕ → Option ℕ → List EditUnit → Option (Option ℕ)
dirty_from d index dirty [] = some dirty
dirty_from d index dirty (u ∷ units) =
    let clean = dirty_from d (index + 1) dirty units in
    let changed = dirty_from d (index + 1) (some index) units in
    if not (has_ordinal index u) || not (is_some (get_elem? d.blocks index))
    then none
    else if is_pristine u (get_elem? d.blocks index)
    then clean
    else if is_some dirty
    then none
    else changed

-- A gap with a blank line stands after a block.
abbrev pub has_blank_gap : Document → ℕ → Bool
has_blank_gap d ordinal = elim (gap_after d ordinal) [
  | none ↦ false
  | some text ↦ includes_blank_line (to_lf text)
]

-- `dirty` with the checks of the gaps on both sides
unfoldable pub dirty_with_gaps : Document → ℕ → Option ℕ
dirty_with_gaps d dirty =
    if ltb 0 dirty && not (has_blank_gap d (dirty - 1))
    then none
    else if ltb (dirty + 1) (length d.blocks) && not (has_blank_gap d dirty)
    then none
    else some dirty

unfoldable pub single_block_edit_index : Document → List EditUnit → TargetEnvelope → Option ℕ
unfolding dirty_with_gaps
single_block_edit_index d units target =
    if not (is_some (unconverted_line_ending d target)) || not (length units == length d.blocks)
    then none
    else elim (dirty_from d 0 none units) [
      | none ↦ none
      | some none ↦ none
      | some (some dirty) ↦ dirty_with_gaps d dirty
    ]

-- Where a block stands in the output, when `block` at `dirty` has a body of another size. The change
-- of the size may be negative.
unfoldable pub shifted_span : ℕ → Block → ℕ → ℕ → Block → Span
shifted_span dirty block size index current =
    if ltb index dirty
    then record { start = current.start; end = current.end }
    else if index == dirty
    then record { start = block.start; end = block.start + size }
    else record {
      start = current.start + size - (block.end - block.start);
      end = current.end + size - (block.end - block.start);
    }

-- The loop over the blocks from an index on.
unfoldable pub shifted_spans : ℕ → Block → ℕ → ℕ → List Block → List Span
shifted_spans dirty block size index [] = []
shifted_spans dirty block size index (current ∷ blocks) =
    shifted_span dirty block size index current ∷ shifted_spans dirty block size (index + 1) blocks

-- `units.map((_, index) => index === dirtyIndex)`
abbrev pub dirty_flags : ℕ → ℕ → List EditUnit → List Bool
dirty_flags dirty index [] = []
dirty_flags dirty index (u ∷ units) = (index == dirty) ∷ dirty_flags dirty (index + 1) units

unfoldable pub encode_output : BlockEngine → Text → Bom → List ℕ
encode_output e text no_bom = e.encode text
encode_output e text utf8 = utf8_bom ++ e.encode text

-- The accepted text with another body in the place of a block.
abbrev pub with_body : Document → Block → Text → Text
with_body d block body = take block.start d.text ++ (body ++ drop block.end d.text)

module _ (e : BlockEngine) (d : Document) (units : List EditUnit) (target : TargetEnvelope) where
  -- The part after the checks of the edited block.
  unfoldable pub save_single : ℕ → Block → Text → ReparsedBlock → SerializeResult
  unfolding encode_output
  save_single dirty block markdown facts =
      let line_ending = target_ending d target in
      let body = from_lf markdown line_ending in
      let output_text = with_body d block body in
      let output_bytes = encode_output e output_text d.envelope.bom in
      let spans = shifted_spans dirty block (length body) 0 d.blocks in
      elim (effective_texts d units) [
        | none ↦ fail d reparse_mismatch
        | some effective ↦
            elim (check_windows e output_text spans effective
              (verification_windows (dirty_flags dirty 0 units))) [
                | none ↦ fail d reparse_mismatch
                | some windows ↦ serialized (record {
                  output_bytes = output_bytes;
                  output_sha256 = e.host.sha256_bytes output_bytes;
                  document = build_next_document e.host d (record {
                    output_text = output_text;
                    output_bytes = output_bytes;
                    line_ending = line_ending;
                    units = units;
                    effective = effective;
                    spans = spans;
                    gaps = map (λ gap. gap.text) d.gaps;
                    leading = d.leading;
                    trailing = d.trailing;
                    reparsed = (dirty, facts) ∷ [];
                  });
                  preserved =
                      bom_evidence e.host d
                      ++ (leading_evidence e.host d
                          ++ (blocks_evidence e.host d (λ index. index == dirty) 0 none d.blocks
                              ++ trailing_evidence e.host d));
                })
              ]
      ]

  -- An index without a block or a unit, at which the code throws, is refused.
  unfoldable pub serialize_single_block_edit : ℕ → SerializeResult
  unfolding save_single
  serialize_single_block_edit dirty = elim (get_elem? d.blocks dirty) [
    | none ↦ fail d multi_block_unit
    | some block ↦ elim (get_elem? units dirty) [
      | none ↦ fail d multi_block_unit
      | some u ↦ elim (unit_markdown d u) [
        | none ↦ fail d multi_block_unit
        | some markdown ↦ elim (e.parse_single_block markdown) [
          | none ↦ fail d multi_block_unit
          | some single ↦ save_single dirty block markdown (record {
            kind = single.kind;
            semantic_key = single.semantic_key;
            markdown = markdown;
          })
        ]
      ]
    ]
  ]
