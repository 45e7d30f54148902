-- ===== src/Git/Table/Longest.antt =====
-- The table of tableAlign, cell by cell, and the length of its walk.
use noto.Common.{
  ℕ, zero, suc, ◌+◌, ◌^◌, ◌≤◌, ◌<◌, max, ◌≡◌, refl, ap, ◌∙◌, inl, inr, List, [], ◌∷◌, arith, leb,
  if◌then◌else◌, leb→le, Bool-cases, ◌==◌, nat_eq, list_eq, length, drop, drop_tail, Text,
}
use noto.Git.Table.{
  fill_row, zero_row, fill_table, first_row, cell, first_cell, uint32, walk, table_align,
}
use mathlib.Core.Path.{ap₂}
use noto.Git.Table.Lcs.{lcs, IsSubsequence, lcs_bound, lcs-le, lcs_same, lcs_other}

-- A row of the table as it should be.
lcs_row : List Text → List Text → List ℕ
lcs_row head [] = lcs head [] ∷ []
lcs_row head (y ∷ current) = lcs head (y ∷ current) ∷ lcs_row head current

zero_row_lem : (current : List Text) → zero_row current ≡ lcs_row [] current
unfolding zero_row lcs_row lcs
zero_row_lem [] = refl
zero_row_lem (y ∷ current) = ap (λ r. 0 ∷ r) (zero_row_lem current)

first_cell-lcs_row :
    (head current : List Text) → first_cell (lcs_row head current) ≡ lcs head current
unfolding lcs_row
first_cell-lcs_row head [] = refl
first_cell-lcs_row head (y ∷ current) = refl

uint32_small : (n : ℕ) → n < 2 ^ 32 → uint32 n ≡ n
uint32_small n h = omega arith

small_lcs : (head current : List Text) → length head + 1 < 2 ^ 32 → lcs head current + 1 < 2 ^ 32
small_lcs head current h = omega (arith, lcs-le head current)

-- A cell from the three beside it.
lcs_cell :
    (x y : Text) (head current : List Text)
    → length head + 1 < 2 ^ 32
    → (if x == y
        then uint32 (lcs head current + 1)
        else max (lcs head (y ∷ current)) (lcs (x ∷ head) current))
      ≡ lcs (x ∷ head) (y ∷ current)
lcs_cell x y head current h = elim (Bool-cases (x == y)) [
  | inl same ↦
      unfold lcs in
      (rw (same, lcs) (uint32_small (lcs head current + 1) (small_lcs head current h)))
  | inr other ↦ unfold lcs in (rw (other, lcs))
]

fill_row_lem :
    (x : Text) (head current : List Text)
    → length head + 1 < 2 ^ 32
    → fill_row x current (lcs_row head current) ≡ lcs_row (x ∷ head) current
unfolding fill_row lcs_row
fill_row_lem x head [] h = unfold lcs in refl
fill_row_lem x head (y ∷ current) h =
    let ih = fill_row_lem x head current h in
    rw ih (
      ap (λ (c : ℕ). c ∷ lcs_row (x ∷ head) current)
        (rw (first_cell-lcs_row head current, first_cell-lcs_row (x ∷ head) current)
          (lcs_cell x y head current h)))

-- The rows of the table as they should be.
lcs_table : List Text → List Text → List (List ℕ)
lcs_table [] current = lcs_row [] current ∷ []
lcs_table (x ∷ head) current = lcs_row (x ∷ head) current ∷ lcs_table head current

first_row-lcs_table :
    (head current : List Text) → first_row (lcs_table head current) ≡ lcs_row head current
unfolding lcs_table
first_row-lcs_table [] current = refl
first_row-lcs_table (x ∷ head) current = refl

fill_table_lem :
    (head current : List Text)
    → length head < 2 ^ 32
    → fill_table head current ≡ lcs_table head current
unfolding fill_table lcs_table
fill_table_lem [] current h = rw zero_row_lem
fill_table_lem (x ∷ head) current h =
    let ih = fill_table_lem head current (omega arith) in
    rw (ih, first_row-lcs_table head current)
      (ap (λ (r : List ℕ). r ∷ lcs_table head current) (fill_row_lem x head current (omega arith)))

row-cell :
    (head current : List Text) (j : ℕ)
    → j ≤ length current
    → first_cell (drop j (lcs_row head current)) ≡ lcs head (drop j current)
unfolding lcs_row
row-cell head current zero h = first_cell-lcs_row head current
row-cell head [] (suc j) h = absurd (omega arith)
row-cell head (y ∷ current) (suc j) h = row-cell head current j (omega arith)

table-cell :
    (head current : List Text) (i j : ℕ)
    → i ≤ length head
    → j ≤ length current
    → cell (lcs_table head current) i j ≡ lcs (drop i head) (drop j current)
unfolding lcs_table
table-cell [] current zero j h k = row-cell [] current j k
table-cell [] current (suc i) j h k = absurd (omega arith)
table-cell (x ∷ head) current zero j h k = row-cell (x ∷ head) current j k
table-cell (x ∷ head) current (suc i) j h k = table-cell head current i j (omega arith) k

module _ (head current : List Text) (start current_start : ℕ) where
  -- The walk from a row and a column collects as many pairs as the table says.
  length-walk :
      (i j : ℕ) (xs ys : List Text)
      → drop i head ≡ xs
      → drop j current ≡ ys
      → length (walk (lcs_table head current) start current_start i j xs ys) ≡ lcs xs ys
  unfolding walk
  length-walk i j [] ys m n = unfold lcs in refl
  length-walk i j (x ∷ xs) [] m n = unfold lcs in refl
  length-walk i j (x ∷ xs) (y ∷ ys) m n =
      let (m', i_lt) = drop_tail i head m in
      let (n', j_lt) = drop_tail j current n in
      let right : cell (lcs_table head current) i (j + 1) ≡ lcs (x ∷ xs) ys =
        table-cell head current i (j + 1) (omega (arith, i_lt)) (omega (arith, j_lt))
        ∙ ap₂ lcs m n' in
      let down : cell (lcs_table head current) (i + 1) j ≡ lcs xs (y ∷ ys) =
        table-cell head current (i + 1) j (omega (arith, i_lt)) (omega (arith, j_lt))
        ∙ ap₂ lcs m' n in
      elim (Bool-cases (x == y)) [
        | inl same ↦
            let ih = length-walk (i + 1) (j + 1) xs ys m' n' in
            rw (same, walk) (rw (lcs_same x y xs ys same) (omega (arith, ih)))
        | inr other ↦
            elim (Bool-cases (
              leb (cell (lcs_table head current) i (j + 1))
                (cell (lcs_table head current) (i + 1) j))) [
                  | inl le ↦
                      let ih = length-walk (i + 1) j xs (y ∷ ys) m' n in
                      let smaller =
                        leb→le (cell (lcs_table head current) i (j + 1))
                          (cell (lcs_table head current) (i + 1) j) le in
                      rw (other, le, walk)
                        (rw (lcs_other x y xs ys other) (omega (arith, ih, right, down, smaller)))
                  | inr gt ↦
                      let ih = length-walk i (j + 1) (x ∷ xs) ys m n' in
                      rw (other, gt, walk)
                        (rw (lcs_other x y xs ys other) (ground (arith, ih, right, down)))
                ]
      ]

pub length-table_align :
    (start current_start : ℕ) (head current : List Text)
    → length head < 2 ^ 32
    → length (table_align start current_start head current) ≡ lcs head current
unfolding table_align
length-table_align start current_start head current h =
    rw (fill_table_lem head current h)
      (length-walk head current start current_start 0 0 head current refl refl)

-- The table alignment finds as many equal blocks as any common subsequence of the two middles has:
-- no choice of blocks in order could keep more. The head's middle has fewer than 2^32 blocks.
pub table_align-IsLongest :
    (start current_start : ℕ) (head current common : List Text)
    → length head < 2 ^ 32
    → IsSubsequence common head
    → IsSubsequence common current
    → length common ≤ length (table_align start current_start head current)
table_align-IsLongest start current_start head current common h a b =
    rw (length-table_align start current_start head current h) (lcs_bound head current common a b)
