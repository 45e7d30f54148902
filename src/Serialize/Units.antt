-- ===== src/Serialize/Units.antt =====
-- The units of an edit: `isPristine`, `unitMarkdown` and `validateOrigins` of serialize.ts.
pub mod Sound
use noto.Common.{
  ℕ, Bool, true, false, not, ◌&&◌, Option, none, some, List, [], ◌∷◌, leb, if◌then◌else◌, is_some,
  ◌==◌, nat_eq, list_eq, length, get_elem?, Text,
}
use noto.Common.Maps.{has, add}
use noto.Contracts.{BlockOrigin, Block, Document, EditUnit, same_origin}
use noto.Serialize.{FailureCode, empty_unit, forged_origin, duplicate_origin, reordered_origin}

unfoldable pub matches_markdown : Option Text → Text → Bool
matches_markdown none markdown = true
matches_markdown (some text) markdown = text == markdown

unfoldable pub is_pristine : EditUnit → Option Block → Bool
unfolding matches_markdown
is_pristine u none = false
is_pristine u (some block) = is_some u.origin && matches_markdown u.markdown block.markdown

-- The block that a unit comes from.
abbrev pub origin_block : Document → EditUnit → Option Block
origin_block d u = elim u.origin [ none ↦ none | some origin ↦ get_elem? d.blocks origin.ordinal ]

abbrev pub pristine_unit : Document → EditUnit → Bool
pristine_unit d u = is_pristine u (origin_block d u)

unfoldable pub unit_markdown : Document → EditUnit → Option Text
unit_markdown d u = elim u.markdown [
  | some text ↦ some text
  | none ↦ (elim (origin_block d u) [ none ↦ none | some block ↦ some block.markdown ])
]

abbrev pub is_empty : Option Text → Bool
is_empty none = false
is_empty (some text) = length text == 0

-- `unit.origin.ordinal <= lastOrdinal`; no ordinal stands for -1.
abbrev pub not_after : ℕ → Option ℕ → Bool
not_after ordinal none = false
not_after ordinal (some last) = leb ordinal last

-- What is wrong with the origin of a unit, if anything.
unfoldable pub check_origin : Document → List Text → Option ℕ → BlockOrigin → Option FailureCode
check_origin d seen last origin = elim (get_elem? d.blocks origin.ordinal) [
  | none ↦ some forged_origin
  | some expected ↦
      if not (same_origin expected.origin origin)
      then some forged_origin
      else if has origin.block_id seen
      then some duplicate_origin
      else if not_after origin.ordinal last
      then some reordered_origin
      else none
]

-- The loop over the units.
unfoldable pub validate_from : Document → List Text → Option ℕ → List EditUnit → Option FailureCode
unfolding check_origin
validate_from d seen last [] = none
validate_from d seen last (u ∷ units) =
    if is_empty u.markdown then some empty_unit else (elim u.origin [
      | none ↦ (elim u.markdown [
        | none ↦ some empty_unit
        | some text ↦ validate_from d seen last units
      ])
      | some origin ↦ (elim (check_origin d seen last origin) [
        | some code ↦ some code
        | none ↦ validate_from d (add origin.block_id seen) (some origin.ordinal) units
      ])
    ])

unfoldable pub validate_origins : Document → List EditUnit → Option FailureCode
unfolding validate_from
validate_origins d units = validate_from d [] none units
