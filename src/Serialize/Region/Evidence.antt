-- ===== src/Serialize/Region/Evidence.antt =====
-- The evidence of the save of a region: the ranges that `serializeContiguousRegion` copied.
use noto.Common.{
  ◌+◌, Bool, Option, none, some, List, [], ◌∷◌, ◌++◌, ltb, if◌then◌else◌, ◌==◌, nat_eq, bool_eq,
  list_eq, length, Text,
}
use noto.Contracts.{Document, EditUnit}
use noto.Document.{Host}
use noto.Serialize.{PreservedRange, leading_range, gap_range}
use noto.Serialize.Units.{is_pristine, origin_block}
use noto.Serialize.Gaps.{gap_after}
use noto.Serialize.Identity.{bom_evidence, block_evidence, trailing_evidence}

module _ (host : Host) (d : Document) where
  -- The gap before a unit, if it follows the block it followed.
  unfoldable pub kept_gap_evidence : Option EditUnit → EditUnit → List PreservedRange
  unfolding gap_after
  kept_gap_evidence none u = []
  kept_gap_evidence (some previous) u = elim previous.origin [
    | none ↦ []
    | some from ↦ elim u.origin [
      | none ↦ []
      | some to ↦
          if from.ordinal + 1 == to.ordinal
          then elim (gap_after d from.ordinal) [
            | none ↦ []
            | some text ↦ elim (origin_block d previous) [
              | none ↦ []
              | some before ↦ elim (origin_block d u) [
                | none ↦ []
                | some block ↦
                    (record {
                      role = gap_range;
                      start = before.end;
                      end = block.start;
                      sha256 = host.sha256_text text;
                    })
                    ∷ []
              ]
            ]
          ]
          else []
    ]
  ]

  -- The loop over the units.
  unfoldable pub units_evidence : Option EditUnit → List EditUnit → List PreservedRange
  unfolding kept_gap_evidence
  units_evidence previous [] = []
  units_evidence previous (u ∷ units) =
      let rest = units_evidence (some u) units in
      elim (origin_block d u) [
        | none ↦ rest
        | some block ↦
            if is_pristine u (some block)
            then kept_gap_evidence previous u ++ block_evidence host d block ∷ rest
            else rest
      ]

  -- `leading` is what was emitted before the first unit; `copied` says that a suffix was copied.
  unfoldable pub region_evidence : Text → Bool → List EditUnit → List PreservedRange
  unfolding units_evidence
  region_evidence leading copied units =
      bom_evidence host d
      ++ ((if ltb 0 (length leading)
            then (record {
              role = leading_range;
              start = 0;
              end = length d.leading;
              sha256 = host.sha256_text d.leading;
            })
              ∷ []
            else [])
          ++ (units_evidence none units ++ (if copied then trailing_evidence host d else [])))
