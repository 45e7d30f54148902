-- ===== src/Revision/BlockId/Moves.antt =====
-- A block's id keeps its digest wherever the block moves.
use noto.Common.{
  ℕ, zero, suc, ◌+◌, ◌/◌, ◌%◌, ◌<◌, ◌≡◌, refl, sym, ◌∙◌, inl, inr, Bool, true, false, ◌&&◌, some,
  [], ◌∷◌, ◌++◌, arith, ltb, Bool-cases, Option-cases, ◌==◌, nat_eq, list_eq, length, all, Text,
}
use noto.Revision.BlockId.{
  colon, is_digit, is_hex, strip_ordinal, match_block_id, decimal_from, decimal, make_block_id,
  block_id_at,
}

strip_ordinal-digit :
    (seen : Bool) (c : ℕ) (t : Text)
    → is_digit c ≡ true
    → strip_ordinal seen (c ∷ t) ≡ strip_ordinal true t
unfolding strip_ordinal
strip_ordinal-digit seen c t h = rw (h, strip_ordinal)

-- Decimal digits are passed over, whatever follows them.
strip_ordinal-decimal_from :
    (fuel n : ℕ) (seen : Bool) (tail rest : Text) (out : Text)
    → n < fuel
    → strip_ordinal true (tail ++ rest) ≡ some out
    → strip_ordinal seen (decimal_from fuel n tail ++ rest) ≡ some out
unfolding decimal_from
strip_ordinal-decimal_from zero n seen tail rest out h k = elim h [ ]
strip_ordinal-decimal_from (suc fuel) n seen tail rest out h k = elim (Bool-cases (ltb n 10)) [
  | inl small ↦
      let digit : is_digit (b'0' + n) ≡ true = ground arith in
      rw (small, decimal_from) (strip_ordinal-digit seen (b'0' + n) (tail ++ rest) digit ∙ k)
  | inr big ↦
      let digit : is_digit (b'0' + n % 10) ≡ true = ground arith in
      rw (big, decimal_from)
        (strip_ordinal-decimal_from fuel (n / 10) seen ((b'0' + n % 10) ∷ tail) rest out
          (ground arith) (strip_ordinal-digit true (b'0' + n % 10) (tail ++ rest) digit ∙ k))
]

-- The number and the colon that ends it; there is at least one digit.
strip_ordinal-decimal :
    (n : ℕ) (digest : Text) → strip_ordinal false (decimal n ++ colon ∷ digest) ≡ some digest
unfolding decimal
strip_ordinal-decimal n digest =
    strip_ordinal-decimal_from (suc n) n false [] (colon ∷ digest) digest (omega arith)
      (unfold strip_ordinal in refl)

-- The sixteen digits of a digest.
abbrev pub IsDigest : Text → Type 0
IsDigest digest = (length digest ≡ 16) × (all is_hex digest ≡ true)

digest_test : (digest : Text) → IsDigest digest → (length digest == 16 && all is_hex digest) ≡ true
digest_test digest (l, h) = ground arith

pub match_block_id-make :
    (n : ℕ) (digest : Text)
    → IsDigest digest
    → match_block_id (make_block_id n digest) ≡ some digest
unfolding match_block_id make_block_id
match_block_id-make n digest h =
    rw (strip_ordinal-decimal n digest, match_block_id) (rw (digest_test digest h))

pub match_block_id-IsDigest :
    (id : Text) {digest : Text} → match_block_id id ≡ some digest → IsDigest digest
unfolding match_block_id
match_block_id-IsDigest id h = ground arith

-- The id of a moved block is that of its own digest at the new ordinal, so moving a block twice is
-- moving it once to the last place.
pub block_id_at-block_id_at :
    (id : Text) (n m : ℕ) {moved : Text}
    → block_id_at id n ≡ some moved
    → (block_id_at moved m ≡ block_id_at id m) × (match_block_id moved ≡ match_block_id id)
unfolding block_id_at
block_id_at-block_id_at id n m {moved} h = elim (Option-cases (match_block_id id)) [
  | inl e ↦ absurd (cc (rw (e, block_id_at) at h))
  | inr (digest, e) ↦
      let is : make_block_id n digest ≡ moved = ground (arith, rw (e, block_id_at) at h) in
      let found : match_block_id moved ≡ some digest =
        rw (← is) (match_block_id-make n digest (match_block_id-IsDigest id e)) in
      (rw (found, e, block_id_at), found ∙ sym e)
]
