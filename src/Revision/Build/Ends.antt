-- ===== src/Revision/Build/Ends.antt =====
-- A splice of just the part that differs.
use noto.Common.{
  ℕ, zero, suc, ◌+◌, ◌-◌, ◌≤◌, ◌<◌, min, ◌≡◌, ap, inl, inr, true, Option, none, some, [], ◌∷◌, ◌++◌,
  arith, ltb, nat_beq, ltb→lt, nat_beq_iff, Bool-cases, nat_eq, list_eq, length, get_elem?, take,
  drop, slice, Text, take_ext, drop_ext, three_parts,
}
use noto.Revision.Build.{common_head, common_tail, ends_head, ends_tail, common_ends, same_unit}

common_head-equal : (xs ys : Text) (k : ℕ) → k < common_head xs ys → get_elem? xs k ≡ get_elem? ys k
unfolding common_head
common_head-equal [] ys k h = absurd (omega arith)
common_head-equal (x ∷ xs) [] k h = absurd (omega arith)
common_head-equal (x ∷ xs) (y ∷ ys) k h = elim (Bool-cases (nat_beq x y)) [
  | inr other ↦ absurd (omega (arith, rw (other, common_head) at h))
  | inl same ↦
      within k ((nat_beq_iff x y).0 same) (rw (same, common_head) at h)
        (λ n l. common_head-equal xs ys n l)
]
  where
    within :
        (n : ℕ)
        → x ≡ y
        → n < suc (common_head xs ys)
        → ((m : ℕ) → m < common_head xs ys → get_elem? xs m ≡ get_elem? ys m)
        → get_elem? (x ∷ xs) n ≡ get_elem? (y ∷ ys) n
    within zero same l more = ap some same
    within (suc n) same l more = more n (omega arith)

common_head-le : (xs ys : Text) → (common_head xs ys ≤ length xs) × (common_head xs ys ≤ length ys)
unfolding common_head
common_head-le [] ys = (omega arith, omega arith)
common_head-le (x ∷ xs) [] = (omega arith, omega arith)
common_head-le (x ∷ xs) (y ∷ ys) = ground (arith, common_head-le xs ys)

same_unit-eq : (a b : Option ℕ) → same_unit a b ≡ true → a ≡ b
same_unit-eq none b h = absurd (cc)
same_unit-eq (some x) none h = absurd (cc)
same_unit-eq (some x) (some y) h = ap some ((nat_beq_iff x y).0 h)

-- The units from the end are equal, below what the loop gives.
module _ (left right : Text) where
  abbrev AgreesAt : ℕ → Type 0
  AgreesAt k = get_elem? left (length left - 1 - k) ≡ get_elem? right (length right - 1 - k)

  common_tail-agrees :
      (room tail : ℕ)
      → ((k : ℕ) → k < tail → AgreesAt k)
      → (common_tail left right room tail ≤ tail + room)
        × ((k : ℕ) → k < common_tail left right room tail → AgreesAt k)
  unfolding common_tail
  common_tail-agrees zero tail a = (omega arith, a)
  common_tail-agrees (suc room) tail a =
      elim (Bool-cases (
        same_unit (get_elem? left (length left - 1 - tail))
          (get_elem? right (length right - 1 - tail)))) [
            | inr other ↦ rw (other, common_tail) (omega arith, a)
            | inl same ↦
                let (le, all_agree) = common_tail-agrees room (tail + 1) (λ k l.
                  elim (Bool-cases (ltb k tail)) [
                    | inl before ↦ a k (ltb→lt k tail before)
                    | inr last ↦ let is : k ≡ tail = ground arith in rw is (same_unit-eq _ _ same)
                  ]) in
                rw (same, common_tail) (omega arith, all_agree)
          ]

  ends_head-le : ends_head left right ≤ common_head left right
  unfolding ends_head
  ends_head-le = ground arith

  ends_tail-le :
      (head : ℕ)
      → ends_tail left right head
        ≤ common_tail left right (min (length left) (length right) - head) 0
  unfolding ends_tail
  ends_tail-le head = ground arith

  -- Putting what differs of the second text between the ends of the first gives the second text;
  -- the two ends do not overlap in either.
  pub common_ends-splices :
      (take (common_ends left right).0 left
          ++ (slice (common_ends left right).0 (length right - (common_ends left right).1) right
              ++ drop (length left - (common_ends left right).1) left)
        ≡ right)
      × ((common_ends left right).0 + (common_ends left right).1 ≤ length left)
      × ((common_ends left right).0 + (common_ends left right).1 ≤ length right)
  unfolding common_ends
  common_ends-splices =
      let head = ends_head left right in
      let tail = ends_tail left right head in
      let (le, agrees) =
        common_tail-agrees (min (length left) (length right) - head) 0
          (λ k l. absurd (omega arith)) in
      let (hl, hr) = common_head-le left right in
      let l : head + tail ≤ length left = omega (arith, le, hl, ends_head-le, ends_tail-le head) in
      let r : head + tail ≤ length right = omega (arith, le, hr, ends_head-le, ends_tail-le head) in
      let first : take head left ≡ take head right =
        take_ext head left right
          (λ k s. common_head-equal left right k (omega (arith, ends_head-le))) in
      let last : drop (length left - tail) left ≡ drop (length right - tail) right =
        drop_ext tail (length left - tail) (length right - tail) left right (omega arith)
          (omega arith)
          (λ k s.
            let e : length left - tail + k ≡ length left - 1 - (tail - 1 - k) = omega (arith, l) in
            let f : length right - tail + k ≡ length right - 1 - (tail - 1 - k) =
              omega (arith, r) in
            rw (e, f) (agrees (tail - 1 - k) (omega (arith, ends_tail-le head)))) in
      (rw (first, last) (three_parts head (length right - tail) right (omega arith)), l, r)
