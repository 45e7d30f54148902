-- ===== src/Serialize/Region.antt =====
-- A region of the file was edited: `pristinePrefixLen`, `pristineSuffixLen` and
-- `serializeContiguousRegion` of serialize.ts. Where the code throws at a block that is missing, the
-- model goes on with nothing; the units that are copied all have their blocks.
pub mod Evidence
pub mod Reading
pub mod Pieces
pub mod Runs
pub mod Flanks
pub mod Bytes
use noto.Common.{
  last?, ℕ, zero, suc, ◌+◌, ◌-◌, Bool, true, not, ◌&&◌, ◌||◌, Option, none, some, List, [], ◌∷◌,
  ◌++◌, map, ltb, if◌then◌else◌, is_some, ◌==◌, nat_eq, bool_eq, list_eq, length, get_elem?, take,
  drop, slice, all, Text,
}
use mathlib.Core.List.{reverse}
use noto.Contracts.{Block, Document, EditUnit, LineEnding, Span, TargetEnvelope}
use noto.LineEndings.{from_lf}
use noto.Windows.{verification_windows}
use noto.Serialize.{
  BlockEngine, SerializeResult, serialized, fail, multi_block_unit, reparse_mismatch,
  unconverted_line_ending,
}
use noto.Serialize.Units.{is_pristine, origin_block, unit_markdown, pristine_unit}
use noto.Serialize.Gaps.{canonical_gap, gap_between}
use noto.Serialize.Identity.{has_ordinal}
use noto.Serialize.Windows.{effective_texts, check_windows}
use noto.Serialize.Next.{build_next_document}
use noto.Serialize.Single.{encode_output}
use noto.Serialize.Region.Reading.{read_windows, read_middle}
use noto.Serialize.Region.Evidence.{region_evidence}

-- The loop of `pristinePrefixLen`: the units from the front that are the blocks from an ordinal on.
unfoldable pub run_up : Document → ℕ → List EditUnit → ℕ
run_up d ordinal [] = 0
run_up d ordinal (u ∷ units) =
    if has_ordinal ordinal u && is_pristine u (get_elem? d.blocks ordinal)
    then suc (run_up d (ordinal + 1) units)
    else 0

abbrev pub pristine_prefix_len : Document → List EditUnit → ℕ
pristine_prefix_len d units = run_up d 0 units

-- The loop of `pristineSuffixLen`, over the units from the last one back, with the count of the
-- blocks before.
unfoldable pub run_down : Document → ℕ → List EditUnit → ℕ
run_down d count [] = 0
run_down d zero (u ∷ units) = 0
run_down d (suc ordinal) (u ∷ units) =
    if has_ordinal ordinal u && is_pristine u (get_elem? d.blocks ordinal)
    then suc (run_down d ordinal units)
    else 0

abbrev pub pristine_suffix_len : Document → List EditUnit → ℕ
pristine_suffix_len d units = run_down d (length d.blocks) (reverse units)

-- What was emitted so far; the cursor is the length of the text.
pub record Emission : Type 0 where
  pub text : Text
  pub spans : List Span
  pub gaps : List Text

-- A unit together with the text between the blocks it is copied with.
abbrev pub stored_gap : Document → EditUnit → LineEnding → Text
stored_gap d u line_ending = elim u.origin [
  | none ↦ canonical_gap line_ending
  | some origin ↦ (elim (get_elem? d.gaps origin.ordinal) [
    | none ↦ canonical_gap line_ending
    | some gap ↦ gap.text
  ])
]

-- The spans of units that are copied, when what stood at `from` comes to stand at `to`.
unfoldable pub copied_spans : Document → ℕ → ℕ → List EditUnit → List Span
copied_spans d from to [] = []
copied_spans d from to (u ∷ units) = elim (origin_block d u) [
  | none ↦ copied_spans d from to units
  | some block ↦
      (record { start = block.start + to - from; end = block.end + to - from })
      ∷ copied_spans d from to units
]

-- The gaps inside a run of units that are copied.
unfoldable pub copied_gaps : Document → LineEnding → List EditUnit → List Text
copied_gaps d line_ending [] = []
copied_gaps d line_ending (u ∷ []) = []
copied_gaps d line_ending (u ∷ v ∷ units) =
    stored_gap d u line_ending ∷ copied_gaps d line_ending (v ∷ units)

abbrev pub block_end : Option Block → ℕ
block_end none = 0
block_end (some block) = block.end

abbrev pub block_start : Option Block → ℕ
block_start none = 0
block_start (some block) = block.start

module _ (e : BlockEngine) (d : Document) (line_ending : LineEnding) where
  -- The prefix: the file up to the end of the last block that did not change.
  unfoldable pub emit_prefix : List EditUnit → Emission
  emit_prefix prefix = elim (last? prefix) [
    | none ↦ record { text = []; spans = []; gaps = [] }
    | some u ↦ record {
      text = take (block_end (origin_block d u)) d.text;
      spans = copied_spans d 0 0 prefix;
      gaps = copied_gaps d line_ending prefix;
    }
  ]

  -- `emitGapBefore`; the first unit has none.
  unfoldable pub emit_gap : Option EditUnit → EditUnit → Emission → Emission
  emit_gap none u out = out
  emit_gap (some previous) u out =
      let gap =
        (gap_between e.host d previous u (pristine_unit d previous) (pristine_unit d u)
          line_ending).0 in
      record out { text = out.text ++ gap; gaps = out.gaps ++ gap ∷ [] }

  -- What a unit of the middle is written as, unless it is not one block.
  unfoldable pub unit_source : EditUnit → Option Text
  unit_source u =
      if pristine_unit d u
      then some (slice (block_start (origin_block d u)) (block_end (origin_block d u)) d.text)
      else elim (unit_markdown d u) [
        | none ↦ none
        | some markdown ↦
            if is_some (e.parse_single_block markdown)
            then some (from_lf markdown line_ending)
            else none
      ]

  unfoldable pub emit_piece : Text → Emission → Emission
  emit_piece piece out = record out {
    text = out.text ++ piece;
    spans =
        out.spans
        ++ (record { start = length out.text; end = length out.text + length piece }) ∷ [];
  }

  -- The loop over the middle.
  unfoldable pub emit_middle : Option EditUnit → List EditUnit → Emission → Option Emission
  emit_middle previous [] out = some out
  emit_middle previous (u ∷ units) out = elim (unit_source u) [
    | none ↦ none
    | some piece ↦ emit_middle (some u) units (emit_piece piece (emit_gap previous u out))
  ]

  -- The suffix: the file from the first block that did not change on.
  unfoldable pub emit_suffix : Option EditUnit → List EditUnit → Emission → Emission
  emit_suffix previous [] out = out
  emit_suffix previous (u ∷ units) out =
      let before = emit_gap previous u out in
      let from = block_start (origin_block d u) in
      record {
        text = before.text ++ drop from d.text;
        spans = before.spans ++ copied_spans d from (length before.text) (u ∷ units);
        gaps = before.gaps ++ copied_gaps d line_ending (u ∷ units);
      }

-- What stands after the last unit.
abbrev pub region_trailing :
    Document → LineEnding → TargetEnvelope → List EditUnit → List EditUnit → Text
region_trailing d line_ending target units (u ∷ suffix) = d.trailing
region_trailing d line_ending target [] [] = []
region_trailing d line_ending target (v ∷ units) [] =
    if target.has_final_newline then from_lf (10 ∷ []) line_ending else []

abbrev pub final_newline : Text → List EditUnit → Text
final_newline trailing [] = trailing
final_newline trailing (u ∷ suffix) = []

abbrev pub leading_of : Document → List EditUnit → Text
leading_of d [] = []
leading_of d (u ∷ prefix) = d.leading

-- `dirty`: the units that changed, or the two at the seam of a hole where none did.
unfoldable pub region_dirty : Document → ℕ → ℕ → List EditUnit → List Bool
region_dirty d prefix_len suffix_len units =
    let changed = map (λ u. not (pristine_unit d u)) units in
    if all not changed
      && (prefix_len + suffix_len == length units && (ltb 0 prefix_len && ltb 0 suffix_len))
    then take (prefix_len - 1) changed ++ true ∷ true ∷ drop (prefix_len + 1) changed
    else changed

module _ (e : BlockEngine) (d : Document) (units : List EditUnit) (target : TargetEnvelope) where
  -- The three parts of the output. No unit is in two of them, which the caller checks.
  unfoldable pub emit_region : LineEnding → ℕ → ℕ → Option Emission
  emit_region line_ending prefix_len suffix_len =
      let middle_to = length units - suffix_len in
      let prefix = take prefix_len units in
      let suffix = drop middle_to units in
      elim (emit_middle e d line_ending (last? prefix) (slice prefix_len middle_to units)
        (emit_prefix e d line_ending prefix)) [
          | none ↦ none
          | some out ↦
              let all_out = emit_suffix e d line_ending (last? (take middle_to units)) suffix out in
              some (record all_out {
                text =
                    all_out.text
                    ++ final_newline (region_trailing d line_ending target units suffix) suffix;
              })
        ]

  -- The part after the output is put together.
  unfoldable pub save_region : LineEnding → ℕ → ℕ → Emission → Option SerializeResult
  save_region line_ending prefix_len suffix_len out =
      let middle_to = length units - suffix_len in
      let suffix = drop middle_to units in
      let leading = leading_of d (take prefix_len units) in
      let output_bytes = encode_output e out.text d.envelope.bom in
      if not (length out.gaps == length units - 1) then none else elim (effective_texts d units) [
        | none ↦ some (fail d reparse_mismatch)
        | some effective ↦
            elim (check_windows e out.text out.spans effective
              (verification_windows (region_dirty d prefix_len suffix_len units))) [
                | none ↦ none
                | some windows ↦
                    elim (read_middle e d units effective prefix_len (middle_to - prefix_len)
                      (read_windows e d units effective windows [])) [
                        | none ↦ some (fail d multi_block_unit)
                        | some reparsed ↦ some (
                            serialized (record {
                              output_bytes = output_bytes;
                              output_sha256 = e.host.sha256_bytes output_bytes;
                              document = build_next_document e.host d (record {
                                output_text = out.text;
                                output_bytes = output_bytes;
                                line_ending = line_ending;
                                units = units;
                                effective = effective;
                                spans = out.spans;
                                gaps = out.gaps;
                                leading = leading;
                                trailing = region_trailing d line_ending target units suffix;
                                reparsed = reparsed;
                              });
                              preserved = region_evidence e.host d leading (ltb 0 suffix_len) units;
                            }))
                      ]
              ]
      ]

  unfoldable pub serialize_contiguous_region : Option SerializeResult
  serialize_contiguous_region =
      let prefix_len = pristine_prefix_len d units in
      let suffix_len = pristine_suffix_len d units in
      elim (unconverted_line_ending d target) [
        | none ↦ none
        | some line_ending ↦
            if ltb (length units) (prefix_len + suffix_len)
              || ((prefix_len + suffix_len == 0)
                  || (prefix_len + suffix_len == length units && length units == length d.blocks))
            then none
            else elim (emit_region line_ending prefix_len suffix_len) [
              | none ↦ some (fail d multi_block_unit)
              | some out ↦ save_region line_ending prefix_len suffix_len out
            ]
      ]
