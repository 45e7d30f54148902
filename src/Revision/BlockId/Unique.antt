-- ===== src/Revision/BlockId/Unique.antt =====
-- Two blocks of a document never have the same id, since the id says the place.
use noto.Common.{
  ℕ, zero, suc, ◌+◌, ◌-◌, ◌*◌, ◌/◌, ◌%◌, ◌<◌, ◌≡◌, refl, sym, ap, ◌∙◌, inl, inr, true, [], ◌∷◌,
  ◌++◌, arith, ltb, if◌then◌else◌, Bool-cases, nat_eq, bool_eq, list_eq, drop, Text,
}
use noto.Revision.BlockId.{colon, is_digit, decimal_from, decimal, make_block_id}

-- The number at the front of a text, after one that was read already.
read_number : ℕ → Text → ℕ
read_number n [] = n
read_number n (c ∷ t) =
    let rest = read_number (n * 10 + (c - b'0')) t in if is_digit c then rest else n

read_number_digit :
    (n c m : ℕ) (t : Text)
    → is_digit c ≡ true
    → n * 10 + (c - b'0') ≡ m
    → read_number n (c ∷ t) ≡ read_number m t
unfolding read_number
read_number_digit n c m t h value = rw (h) (ap (λ (x : ℕ). read_number x t) value)

read_number-decimal_from :
    (fuel n : ℕ) (tail rest : Text)
    → n < fuel
    → read_number 0 (decimal_from fuel n tail ++ rest) ≡ read_number n (tail ++ rest)
unfolding decimal_from
read_number-decimal_from zero n tail rest h = elim h [ ]
read_number-decimal_from (suc fuel) n tail rest h = elim (Bool-cases (ltb n 10)) [
  | inl small ↦
      rw (small, decimal_from)
        (read_number_digit 0 (b'0' + n) n (tail ++ rest) (ground arith) (omega arith))
  | inr big ↦
      rw (big, decimal_from)
        (read_number-decimal_from fuel (n / 10) ((b'0' + n % 10) ∷ tail) rest (ground arith)
          ∙ read_number_digit (n / 10) (b'0' + n % 10) n (tail ++ rest) (ground arith)
              (omega arith))
]

read_number-decimal : (n : ℕ) (rest : Text) → read_number 0 (decimal n ++ colon ∷ rest) ≡ n
unfolding decimal
read_number-decimal n rest =
    read_number-decimal_from (suc n) n [] (colon ∷ rest) (omega arith)
    ∙ (unfold read_number in refl)

-- Ids that are equal name the same place, whatever the digests.
pub make_block_id_injective : (n m : ℕ) (a b : Text) → make_block_id n a ≡ make_block_id m b → n ≡ m
unfolding make_block_id
make_block_id_injective n m a b h =
    let bare : decimal n ++ colon ∷ a ≡ decimal m ++ colon ∷ b = ap (λ (t : Text). drop 14 t) h in
    sym (read_number-decimal n a) ∙ (ap (read_number 0) bare ∙ read_number-decimal m b)
