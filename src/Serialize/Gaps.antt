-- ===== src/Serialize/Gaps.antt =====
-- The text between two units: `gapBetween` of serialize.ts.
use noto.Common.{
  ℕ, ◌+◌, Bool, false, not, ◌&&◌, ◌||◌, Option, none, some, [], ◌∷◌, if◌then◌else◌, ◌==◌, nat_eq,
  list_eq, get_elem?, Text,
}
use noto.Contracts.{LineEnding, Document, EditUnit}
use noto.LineEndings.{to_lf, from_lf}
use noto.Document.{Host}
use noto.Serialize.{PreservedRange, gap_range}

-- `text.includes('\n\n')`
unfoldable pub includes_blank_line : Text → Bool
includes_blank_line [] = false
includes_blank_line (c ∷ []) = false
includes_blank_line (c ∷ d ∷ t) = (c == 10 && d == 10) || includes_blank_line (d ∷ t)

abbrev pub canonical_gap : LineEnding → Text
canonical_gap line_ending = from_lf (10 ∷ 10 ∷ []) line_ending

-- The gap after a block, if it is stored in its place.
unfoldable pub gap_after : Document → ℕ → Option Text
gap_after d ordinal = elim (get_elem? d.gaps ordinal) [
  | none ↦ none
  | some gap ↦ if gap.before_ordinal == ordinal then some gap.text else none
]

-- The original gap where it may be used again: after the block of this ordinal, before the next.
unfoldable pub kept_gap : Document → EditUnit → EditUnit → Bool → Bool → Option (ℕ × Text)
unfolding gap_after includes_blank_line
kept_gap d previous current previous_pristine current_pristine = elim previous.origin [
  | none ↦ none
  | some from ↦ elim current.origin [
    | none ↦ none
    | some to ↦
        if not (to.ordinal == from.ordinal + 1) then none else elim (gap_after d from.ordinal) [
          | none ↦ none
          | some text ↦
              if not (includes_blank_line (to_lf text))
                && not (previous_pristine && current_pristine)
              then none
              else some (from.ordinal, text)
        ]
  ]
]

-- The evidence for a gap; a block that is missing, at which the code throws, leaves none.
unfoldable pub gap_evidence : Host → Document → ℕ → Text → Option PreservedRange
gap_evidence host d ordinal text = elim (get_elem? d.blocks ordinal) [
  | none ↦ none
  | some previous ↦ elim (get_elem? d.blocks (ordinal + 1)) [
    | none ↦ none
    | some next ↦ some (record {
      role = gap_range;
      start = previous.end;
      end = next.start;
      sha256 = host.sha256_text text;
    })
  ]
]

unfoldable pub gap_between :
    Host → Document → EditUnit → EditUnit → Bool → Bool → LineEnding → Text × Option PreservedRange
unfolding kept_gap gap_evidence
gap_between host d previous current previous_pristine current_pristine line_ending =
    elim (kept_gap d previous current previous_pristine current_pristine) [
      | none ↦ (canonical_gap line_ending, none)
      | some (ordinal, text) ↦ (text, gap_evidence host d ordinal text)
    ]
