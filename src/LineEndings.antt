-- ===== src/LineEndings.antt =====
-- src/shared/markdown/v3/line-endings.ts, and `detectLineEnding` of document.ts beside it.
pub mod Laws
use noto.Common.{
  ℕ, ◌+◌, Bool, true, false, not, ◌&&◌, ◌||◌, [], ◌∷◌, ltb, if◌then◌else◌, ◌==◌, nat_eq, list_eq,
  Text,
}
use noto.Contracts.{LineEnding, lf, crlf, mixed}

abbrev pub cr_unit : ℕ
cr_unit = 13

abbrev pub lf_unit : ℕ
lf_unit = 10

-- `text.includes(c)` for one code unit
pub includes_unit : ℕ → Text → Bool
includes_unit c [] = false
includes_unit c (x ∷ t) = x == c || includes_unit c t

-- `text.replaceAll('\r\n', '\n')`
pub replace_crlf : Text → Text
replace_crlf [] = []
replace_crlf (c ∷ []) = c ∷ []
replace_crlf (c ∷ d ∷ t) = elim (c == cr_unit && d == lf_unit) [
  | true ↦ lf_unit ∷ replace_crlf t
  | false ↦ c ∷ replace_crlf (d ∷ t)
]

-- `text.replaceAll('\r', '\n')`
pub replace_cr : Text → Text
replace_cr [] = []
replace_cr (c ∷ t) = (if c == cr_unit then lf_unit else c) ∷ replace_cr t

-- `text.replaceAll('\n', '\r\n')`
pub replace_lf : Text → Text
replace_lf [] = []
replace_lf (c ∷ t) = if c == lf_unit then cr_unit ∷ lf_unit ∷ replace_lf t else c ∷ replace_lf t

unfoldable pub to_lf : Text → Text
unfolding includes_unit replace_crlf replace_cr
to_lf t = if includes_unit cr_unit t then replace_cr (replace_crlf t) else t

unfoldable pub from_lf : Text → LineEnding → Text
unfolding replace_lf
from_lf t crlf = replace_lf t
from_lf t _ = t

-- The loop of `detectLineEnding` over the line feeds: `after_cr` says whether the unit before the
-- text at hand is a carriage return, and the counts are those of the two kinds seen so far.
pub detect_from : Bool → ℕ → ℕ → Text → LineEnding
detect_from after_cr pairs bare [] = if ltb 0 pairs then crlf else lf
detect_from after_cr pairs bare (c ∷ t) =
    let pairs' = if c == lf_unit && after_cr then pairs + 1 else pairs in
    let bare' = if c == lf_unit && not after_cr then bare + 1 else bare in
    let rest = detect_from (c == cr_unit) pairs' bare' t in
    if c == lf_unit && (ltb 0 pairs' && ltb 0 bare') then mixed else rest

unfoldable pub detect_line_ending : Text → LineEnding
unfolding includes_unit detect_from
detect_line_ending t = if includes_unit cr_unit t then detect_from false 0 0 t else lf
