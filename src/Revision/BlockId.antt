-- ===== src/Revision/BlockId.antt =====
-- `blockIdAt` of revision-patch.ts, with the regular expression that it matches written out:
-- `noto-block-v3:`, decimal digits, a colon and exactly sixteen lower-case hexadecimal digits.
pub mod Moves
pub mod Unique
use noto.Common.{
  ℕ, zero, suc, ◌+◌, ◌-◌, ◌/◌, ◌%◌, Bool, true, false, ◌&&◌, ◌||◌, Option, none, some, [], ◌∷◌,
  ◌++◌, ltb, leb, if◌then◌else◌, ◌==◌, nat_eq, list_eq, length, all, Text, codes,
}

abbrev pub colon : ℕ
colon = b':'

abbrev pub id_prefix : Text
id_prefix = codes "noto-block-v3:"

abbrev pub is_digit : ℕ → Bool
is_digit c = leb b'0' c && leb c b'9'

abbrev pub is_hex : ℕ → Bool
is_hex c = is_digit c || (leb b'a' c && leb c b'f')

-- the text after a prefix
pub strip_prefix : Text → Text → Option Text
strip_prefix [] t = some t
strip_prefix (p ∷ ps) [] = none
strip_prefix (p ∷ ps) (c ∷ t) = if p == c then strip_prefix ps t else none

-- the text after `\d*:`, with at least one digit if the flag is not set yet
pub strip_ordinal : Bool → Text → Option Text
strip_ordinal seen [] = none
strip_ordinal seen (c ∷ t) =
    let rest = strip_ordinal true t in
    if is_digit c then rest else if seen && c == colon then some t else none

-- the second group of the match
pub match_block_id : Text → Option Text
unfolding strip_prefix strip_ordinal
match_block_id id = elim (strip_prefix id_prefix id) [
  | none ↦ none
  | some t ↦ elim (strip_ordinal false t) [
    | none ↦ none
    | some digest ↦ if length digest == 16 && all is_hex digest then some digest else none
  ]
]

-- A number in decimal, as a template literal writes it; the fuel is above the number of digits.
pub decimal_from : ℕ → ℕ → Text → Text
decimal_from zero n tail = tail
decimal_from (suc fuel) n tail =
    let rest = decimal_from fuel (n / 10) ((b'0' + n % 10) ∷ tail) in
    if ltb n 10 then (b'0' + n) ∷ tail else rest

pub decimal : ℕ → Text
unfolding decimal_from
decimal n = decimal_from (suc n) n []

-- `noto-block-v3:${ordinal}:${digest}`
unfoldable pub make_block_id : ℕ → Text → Text
unfolding decimal
make_block_id ordinal digest = id_prefix ++ (decimal ordinal ++ colon ∷ digest)

unfoldable pub block_id_at : Text → ℕ → Option Text
unfolding match_block_id make_block_id
block_id_at id ordinal = elim (match_block_id id) [
  | none ↦ none
  | some digest ↦ some (make_block_id ordinal digest)
]
