-- ===== src/Git/Table.antt =====
-- `tableAlign` of block-diff.ts: a longest common subsequence by table.
pub mod Walk
pub mod Lcs
pub mod Longest
use noto.Common.{
  ℕ, zero, suc, ◌+◌, ◌%◌, ◌^◌, max, true, false, List, [], ◌∷◌, leb, if◌then◌else◌, ◌==◌, nat_eq,
  list_eq, drop, Text,
}

-- the first cell of a row, and a cell of the table
abbrev pub first_cell : List ℕ → ℕ
first_cell [] = 0
first_cell (x ∷ xs) = x

abbrev pub cell : List (List ℕ) → ℕ → ℕ → ℕ
cell [] i j = 0
cell (row ∷ rows) zero j = first_cell (drop j row)
cell (row ∷ rows) (suc i) j = cell rows i j

-- a value as an `Uint32Array` holds it
abbrev pub uint32 : ℕ → ℕ
uint32 n = n % 2 ^ 32

-- A row of the table from the row below it, for one block `x` of the head; the last cell is 0.
pub fill_row : Text → List Text → List ℕ → List ℕ
fill_row x [] below = 0 ∷ []
fill_row x (y ∷ current) below =
    let rest = fill_row x current (drop 1 below) in
    (if x == y
      then uint32 (first_cell (drop 1 below) + 1)
      else max (first_cell below) (first_cell rest))
    ∷ rest

pub zero_row : List Text → List ℕ
zero_row [] = 0 ∷ []
zero_row (y ∷ current) = 0 ∷ zero_row current

abbrev pub first_row : List (List ℕ) → List ℕ
first_row [] = []
first_row (row ∷ rows) = row

-- The rows of `lengths`, from the first to the row of zeros.
pub fill_table : List Text → List Text → List (List ℕ)
unfolding fill_row zero_row
fill_table [] current = zero_row current ∷ []
fill_table (x ∷ head) current =
    let rows = fill_table head current in fill_row x current (first_row rows) ∷ rows

-- The walk through the table from row `i` and column `j`, over what is left of both sides; the
-- pairs are those of the blocks' indices, which begin at `start` and `current_start`.
pub walk : List (List ℕ) → ℕ → ℕ → ℕ → ℕ → List Text → List Text → List (ℕ × ℕ)
walk lengths start current_start i j [] current = []
walk lengths start current_start i j (x ∷ head) [] = []
walk lengths start current_start i j (x ∷ head) (y ∷ current) = elim (x == y) [
  | true ↦
      (start + i, current_start + j) ∷ walk lengths start current_start (i + 1) (j + 1) head current
  | false ↦ elim (leb (cell lengths i (j + 1)) (cell lengths (i + 1) j)) [
    | true ↦ walk lengths start current_start (i + 1) j head (y ∷ current)
    | false ↦ walk lengths start current_start i (j + 1) (x ∷ head) current
  ]
]

-- `tableAlign` over the two middles
unfoldable pub table_align : ℕ → ℕ → List Text → List Text → List (ℕ × ℕ)
unfolding fill_table walk
table_align start current_start head current =
    walk (fill_table head current) start current_start 0 0 head current
