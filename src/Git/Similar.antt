-- ===== src/Git/Similar.antt =====
-- `similarity` and `similarPairs` of block-diff.ts: which committed block each current block of an
-- unmatched stretch is an edit of. The set of a block's words is a parameter, since it goes by the
-- Unicode classes of letters; so is the arithmetic on doubles.
pub mod Rise
use noto.Common.{
  ℕ, zero, suc, ◌+◌, ◌*◌, Bool, true, false, ◌&&◌, List, [], ◌∷◌, map, if◌then◌else◌, ◌==◌, nat_eq,
  list_eq, length, drop, Text,
}
use noto.Common.Maps.{has}

-- What the code uses of the numbers: `ratio a b` is `a / b` of two whole numbers.
pub record Doubles : Type 1 where
  pub carrier : Type 0
  pub nought : carrier
  pub one : carrier
  pub similar : carrier
  pub ratio : ℕ → ℕ → carrier
  pub plus : carrier → carrier → carrier
  pub larger : carrier → carrier → carrier
  pub at_least : carrier → carrier → Bool
  pub equals : carrier → carrier → Bool
  pub positive : carrier → Bool

-- how many words of one set are in the other
pub count_shared : List Text → List Text → ℕ
count_shared [] right = 0
count_shared (word ∷ left) right = (if has word right then 1 else 0) + count_shared left right

module _ (d : Doubles) where
  pub similarity : List Text → List Text → d.carrier
  unfolding count_shared
  similarity left right =
      if length left == 0 && length right == 0
      then d.one
      else d.ratio (2 * count_shared left right) (length left + length right)

  pub score : List Text → List Text → d.carrier
  unfolding similarity
  score left right =
      let value = similarity left right in if d.at_least value d.similar then value else d.nought

  abbrev pub first_best : List d.carrier → d.carrier
  first_best [] = d.nought
  first_best (x ∷ xs) = x

  -- A row of `best` from the row below it, for the words of one committed block.
  pub best_row : List Text → List (List Text) → List d.carrier → List d.carrier
  unfolding score
  best_row words [] below = d.nought ∷ []
  best_row words (other ∷ current) below =
      let rest = best_row words current (drop 1 below) in
      let pair = score words other in
      d.larger (if d.positive pair then d.plus (first_best (drop 1 below)) pair else d.nought)
        (d.larger (first_best below) (first_best rest))
      ∷ rest

  pub nought_row : List (List Text) → List d.carrier
  nought_row [] = d.nought ∷ []
  nought_row (words ∷ current) = d.nought ∷ nought_row current

  abbrev pub first_best_row : List (List d.carrier) → List d.carrier
  first_best_row [] = []
  first_best_row (row ∷ rows) = row

  pub best_table : List (List Text) → List (List Text) → List (List d.carrier)
  unfolding best_row nought_row
  best_table [] current = nought_row current ∷ []
  best_table (words ∷ head) current =
      let rows = best_table head current in best_row words current (first_best_row rows) ∷ rows

  abbrev pub best_at : List (List d.carrier) → ℕ → ℕ → d.carrier
  best_at [] i j = d.nought
  best_at (row ∷ rows) zero j = first_best (drop j row)
  best_at (row ∷ rows) (suc i) j = best_at rows i j

  -- The walk through the table, over what is left of both sides.
  pub pair_walk : List (List d.carrier) → ℕ → ℕ → List (List Text) → List (List Text) → List (ℕ × ℕ)
  unfolding score
  pair_walk best i j [] current = []
  pair_walk best i j (x ∷ head) [] = []
  pair_walk best i j (x ∷ head) (y ∷ current) =
      elim (d.positive (score x y)
        && d.equals (best_at best i j) (d.plus (best_at best (i + 1) (j + 1)) (score x y))) [
          | true ↦ (i, j) ∷ pair_walk best (i + 1) (j + 1) head current
          | false ↦ elim (d.at_least (best_at best (i + 1) j) (best_at best i (j + 1))) [
            | true ↦ pair_walk best (i + 1) j head (y ∷ current)
            | false ↦ pair_walk best i (j + 1) (x ∷ head) current
          ]
        ]

  pub similar_pairs : (Text → List Text) → List Text → List Text → List (ℕ × ℕ)
  unfolding best_table pair_walk
  similar_pairs words head current =
      let head_words = map words head in
      let current_words = map words current in
      pair_walk (best_table head_words current_words) 0 0 head_words current_words
