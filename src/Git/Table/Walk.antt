-- ===== src/Git/Table/Walk.antt =====
-- The pairs of the walk stand in order and join equal blocks, whatever the table holds.
use noto.Common.{
  ℕ, ◌+◌, sym, ap, ◌∙◌, inl, inr, some, List, [], ◌∷◌, arith, leb, Bool-cases, ◌==◌, nat_eq,
  list_beq_iff, list_eq, Text,
}
use native.Mathlib.Nat.{add_assoc, add-zero}
use noto.Git.Pairs.{Aligned, Aligned-weaken, Middle, Middle-end}
use noto.Git.Table.{walk, table_align, cell, fill_table}

module _ (head current : List Text) (lengths : List (List ℕ))
    (start current_start h_end c_end : ℕ) where
  walk-Aligned :
      (i j : ℕ) (xs ys : List Text)
      → Middle head (start + i) h_end xs
      → Middle current (current_start + j) c_end ys
      → Aligned head current
          (start + i)
          (current_start + j)
          h_end
          c_end
          (walk lengths start current_start i j xs ys)
  unfolding walk
  walk-Aligned i j [] ys m n = tt
  walk-Aligned i j (x ∷ xs) [] m n = tt
  walk-Aligned i j (x ∷ xs) (y ∷ ys) (at, m) (to, n) =
      let m' : Middle head (start + (i + 1)) h_end xs = rw (add_assoc start i 1) at m in
      let n' : Middle current (current_start + (j + 1)) c_end ys =
        rw (add_assoc current_start j 1) at n in
      let lh = Middle-end head (start + i + 1) h_end xs m in
      let lc = Middle-end current (current_start + j + 1) c_end ys n in
      elim (Bool-cases (x == y)) [
        | inl same ↦
            rw (same, walk)
              (
                omega arith,
                omega arith,
                omega (arith, lh),
                omega (arith, lc),
                at ∙ ap some ((list_beq_iff x y).0 same) ∙ sym to,
                rw (add_assoc start i 1, add_assoc current_start j 1)
                    (walk-Aligned (i + 1) (j + 1) xs ys m' n'),
              )
        | inr other ↦ elim (Bool-cases (leb (cell lengths i (j + 1)) (cell lengths (i + 1) j))) [
          | inl down ↦
              rw (other, down, walk)
                (Aligned-weaken head current (start + i) (current_start + j) (start + (i + 1))
                  (current_start + j) h_end c_end h_end c_end _ (omega arith) (omega arith)
                  (omega arith) (omega arith) (walk-Aligned (i + 1) j xs (y ∷ ys) m' (to, n)))
          | inr right ↦
              rw (other, right, walk)
                (Aligned-weaken head current (start + i) (current_start + j) (start + i)
                  (current_start + (j + 1)) h_end c_end h_end c_end _ (omega arith) (omega arith)
                  (omega arith) (omega arith) (walk-Aligned i (j + 1) (x ∷ xs) ys (at, m) n'))
        ]
      ]

-- The table alignment of two middles joins equal blocks, in order.
pub table_align-Aligned :
    (head current : List Text) (start current_start h_end c_end : ℕ) (xs ys : List Text)
    → Middle head start h_end xs
    → Middle current current_start c_end ys
    → Aligned head current start current_start h_end c_end (table_align start current_start xs ys)
unfolding table_align
table_align-Aligned head current start current_start h_end c_end xs ys m n =
    rw (add-zero start, add-zero current_start) at
      (walk-Aligned head current (fill_table xs ys) start current_start h_end c_end 0 0 xs ys
        (rw (add-zero start) m) (rw (add-zero current_start) n))
