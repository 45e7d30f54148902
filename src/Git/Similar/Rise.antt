-- ===== src/Git/Similar/Rise.antt =====
-- The pairs of similar blocks rise on both sides.
use noto.Common.{
  ℕ, suc, ◌+◌, ◌≤◌, ◌<◌, ◌≡◌, inl, inr, ◌&&◌, List, [], ◌∷◌, map, arith, Bool-cases, nat_eq,
  list_eq, length, length-map, Text,
}
use native.Mathlib.Nat.{zero-add}
use noto.Git.Similar.{best_at, best_table, Doubles, score, pair_walk, similar_pairs}

-- Pairs that rise on both sides, from `i` and `j` on and below `rows` and `columns`.
abbrev pub IsRising : ℕ → ℕ → ℕ → ℕ → List (ℕ × ℕ) → Type 0
IsRising i j rows columns [] = Unit
IsRising i j rows columns ((a, b) ∷ pairs) =
    (i ≤ a) × (j ≤ b) × (a < rows) × (b < columns) × IsRising (a + 1) (b + 1) rows columns pairs

IsRising-weaken :
    (i j i' j' rows columns : ℕ) (pairs : List (ℕ × ℕ))
    → i ≤ i'
    → j ≤ j'
    → IsRising i' j' rows columns pairs
    → IsRising i j rows columns pairs
IsRising-weaken i j i' j' rows columns [] p q r = tt
IsRising-weaken i j i' j' rows columns ((a, b) ∷ pairs) p q (x, y, u, v, rest) =
    (omega arith, omega arith, u, v, rest)

module _ (d : Doubles) where
  pair_walk-IsRising :
      (best : List (List d.carrier)) (i j : ℕ) (xs ys : List (List Text))
      → IsRising i j (i + length xs) (j + length ys) (pair_walk d best i j xs ys)
  unfolding pair_walk
  pair_walk-IsRising best i j [] ys = tt
  pair_walk-IsRising best i j (x ∷ xs) [] = tt
  pair_walk-IsRising best i j (x ∷ xs) (y ∷ ys) =
      let e : i + suc (length xs) ≡ i + 1 + length xs = omega arith in
      let f : j + suc (length ys) ≡ j + 1 + length ys = omega arith in
      elim (Bool-cases (
        d.positive (score d x y)
        && d.equals (best_at d best i j) (d.plus (best_at d best (i + 1) (j + 1)) (score d x y)))) [
          | inl pair ↦
              rw (pair, e, f, pair_walk)
                (
                  omega arith,
                  omega arith,
                  omega arith,
                  omega arith,
                  pair_walk-IsRising best (i + 1) (j + 1) xs ys,
                )
          | inr apart ↦
              elim (Bool-cases (d.at_least (best_at d best (i + 1) j) (best_at d best i (j + 1)))) [
                | inl down ↦
                    rw (apart, down, e, pair_walk)
                      (IsRising-weaken i j (i + 1) j _ _ _ (omega arith) (omega arith)
                        (pair_walk-IsRising best (i + 1) j xs (y ∷ ys)))
                | inr right ↦
                    rw (apart, right, f, pair_walk)
                      (IsRising-weaken i j i (j + 1) _ _ _ (omega arith) (omega arith)
                        (pair_walk-IsRising best i (j + 1) (x ∷ xs) ys))
              ]
        ]

  -- The pairs of two stretches rise on both sides and lie within them.
  pub similar_pairs-IsRising :
      (words : Text → List Text) (head current : List Text)
      → IsRising 0 0 (length head) (length current) (similar_pairs d words head current)
  unfolding similar_pairs
  similar_pairs-IsRising words head current =
      rw
        (
          length-map words head,
          length-map words current,
          zero-add (length head),
          zero-add (length current),
        )
        at
        (pair_walk-IsRising (best_table d (map words head) (map words current)) 0 0 (map words head)
          (map words current))
