-- ===== src/Git/Table/Lcs.antt =====
-- Longest common subsequences of two lists of blocks.
use noto.Common.{
  ℕ, ◌+◌, ◌≤◌, max, ◌≡◌, ap, ◌≢◌, ◌⊎◌, inl, inr, true, false, List, [], ◌∷◌, ◌++◌, append-nil,
  append_assoc, arith, Bool-cases, ◌==◌, nat_eq, list_beq_iff, list_eq, ==_refl, length, Text,
}

-- The length of a longest common subsequence, by recursion.
unfoldable pub lcs : List Text → List Text → ℕ
lcs [] current = 0
lcs (x ∷ head) [] = 0
lcs (x ∷ head) (y ∷ current) = elim (x == y) [
  | true ↦ lcs head current + 1
  | false ↦ max (lcs head (y ∷ current)) (lcs (x ∷ head) current)
]

-- `common` is what is left of a list when some of its items are taken out.
abbrev pub IsSubsequence : List Text → List Text → Type 0
IsSubsequence common [] = common ≡ []
IsSubsequence common (x ∷ xs) =
    IsSubsequence common xs ⊎ ((rest : List Text) × (common ≡ x ∷ rest) × IsSubsequence rest xs)

IsSubsequence-tail :
    (z : Text) (common xs : List Text) → IsSubsequence (z ∷ common) xs → IsSubsequence common xs
IsSubsequence-tail z common [] h = absurd (cc)
IsSubsequence-tail z common (x ∷ xs) (inl h) = inl (IsSubsequence-tail z common xs h)
IsSubsequence-tail z common (x ∷ xs) (inr (rest, e, h)) =
    let same : rest ≡ common = ground arith in inl (rw same at h)

-- The tail of a common subsequence lies in the tail of the list.
IsSubsequence-cons :
    (z x : Text) (common xs : List Text)
    → IsSubsequence (z ∷ common) (x ∷ xs)
    → IsSubsequence common xs
IsSubsequence-cons z x common xs (inl h) = IsSubsequence-tail z common xs h
IsSubsequence-cons z x common xs (inr (rest, e, h)) =
    let same : rest ≡ common = ground arith in rw same at h

-- If the first items differ, the list's first item is not needed.
IsSubsequence-skip :
    (z x : Text) (common xs : List Text)
    → z ≢ x
    → IsSubsequence (z ∷ common) (x ∷ xs)
    → IsSubsequence (z ∷ common) xs
IsSubsequence-skip z x common xs d (inl h) = h
IsSubsequence-skip z x common xs d (inr (rest, e, h)) = absurd (d (ground arith))

-- No common subsequence is longer.
pub lcs_bound :
    (head current common : List Text)
    → IsSubsequence common head
    → IsSubsequence common current
    → length common ≤ lcs head current
unfolding lcs
lcs_bound [] current common h k = omega (arith, ap length h)
lcs_bound (x ∷ head) [] common h k = omega (arith, ap length k)
lcs_bound (x ∷ head) (y ∷ current) [] h k = omega arith
lcs_bound (x ∷ head) (y ∷ current) (z ∷ common) h k = elim (Bool-cases (x == y)) [
  | inl same ↦
      rw (same, lcs)
        (let ih =
            lcs_bound head current common (IsSubsequence-cons z x common head h)
              (IsSubsequence-cons z y common current k) in
          omega (arith, ih))
  | inr other ↦ elim (Bool-cases (z == x)) [
    | inl is_x ↦
        let z_ne_y : z ≢ y = λ e. ground (arith, list_beq_iff x y, list_beq_iff z x) in
        rw (other, lcs)
          (let ih =
              lcs_bound (x ∷ head) current (z ∷ common) h
                (IsSubsequence-skip z y common current z_ne_y k) in
            omega (arith, ih))
    | inr not_x ↦
        let z_ne_x : z ≢ x = λ e. ground (arith, list_beq_iff z x) in
        rw (other, lcs)
          (let ih =
              lcs_bound head (y ∷ current) (z ∷ common)
                (IsSubsequence-skip z x common head z_ne_x h) k in
            omega (arith, ih))
  ]
]

pub lcs-le : (head current : List Text) → lcs head current ≤ length head
unfolding lcs
lcs-le [] current = omega arith
lcs-le (x ∷ head) [] = omega arith
lcs-le (x ∷ head) (y ∷ current) =
    ground (arith, lcs-le head current, lcs-le head (y ∷ current), lcs-le (x ∷ head) current)

pub lcs_same :
    (x y : Text) (head current : List Text)
    → (x == y) ≡ true
    → lcs (x ∷ head) (y ∷ current) ≡ lcs head current + 1
unfolding lcs
lcs_same x y head current h = rw (h, lcs)

pub lcs_other :
    (x y : Text) (head current : List Text)
    → (x == y) ≡ false
    → lcs (x ∷ head) (y ∷ current) ≡ max (lcs head (y ∷ current)) (lcs (x ∷ head) current)
unfolding lcs
lcs_other x y head current h = rw (h, lcs)

pub lcs-le_right : (head current : List Text) → lcs head current ≤ length current
unfolding lcs
lcs-le_right [] current = omega arith
lcs-le_right (x ∷ head) [] = omega arith
lcs-le_right (x ∷ head) (y ∷ current) = ground (
  arith,
  lcs-le_right head current,
  lcs-le_right head (y ∷ current),
  lcs-le_right (x ∷ head) current,
)

-- A common beginning is part of a longest common subsequence.
pub lcs-append_left : (ps xs ys : List Text) → lcs (ps ++ xs) (ps ++ ys) ≡ length ps + lcs xs ys
lcs-append_left [] xs ys = omega arith
lcs-append_left (p ∷ ps) xs ys =
    omega (arith, lcs_same p p (ps ++ xs) (ps ++ ys) (==_refl p), lcs-append_left ps xs ys)

-- One block more on each side adds at most one.
lcs_one_more : (xs ys : List Text) (z w : Text) → lcs (xs ++ z ∷ []) (ys ++ w ∷ []) ≤ lcs xs ys + 1
unfolding lcs
lcs_one_more [] ys z w = omega (arith, lcs-le (z ∷ []) (ys ++ w ∷ []))
lcs_one_more (x ∷ xs) [] z w = omega (arith, lcs-le_right (x ∷ xs ++ z ∷ []) (w ∷ []))
lcs_one_more (x ∷ xs) (y ∷ ys) z w = elim (Bool-cases (x == y)) [
  | inl same ↦ rw (same, lcs) (omega (arith, lcs_one_more xs ys z w))
  | inr other ↦
      rw (other, lcs) (omega (arith, lcs_one_more xs (y ∷ ys) z w, lcs_one_more (x ∷ xs) ys z w))
]

pub lcs-append_right : (ss xs ys : List Text) → lcs (xs ++ ss) (ys ++ ss) ≤ lcs xs ys + length ss
lcs-append_right [] xs ys = rw (append-nil xs, append-nil ys) (omega arith)
lcs-append_right (s ∷ ss) xs ys =
    rw (← append_assoc xs (s ∷ []) ss, ← append_assoc ys (s ∷ []) ss)
      (omega (arith, lcs-append_right ss (xs ++ s ∷ []) (ys ++ s ∷ []), lcs_one_more xs ys s s))
