-- ===== src/Git/Anchors.antt =====
-- `uniqueAnchors` of block-diff.ts: blocks that occur once on each side, and the longest run of them
-- in the same order on both, by patience sorting.
pub mod Candidates
pub mod Order
pub mod Chain
use noto.Common.{
  ℕ, zero, suc, ◌+◌, ◌-◌, ◌/◌, ◌&&◌, Option, none, some, List, [], ◌∷◌, ◌++◌, ltb, if◌then◌else◌,
  ◌==◌, nat_eq, list_eq, length, get_elem?, Text,
}
use noto.Common.Maps.{lookup, insert}

-- where a block was seen, and how often, on either side; no index stands for -1
pub record Seen : Type 0 where
  pub head : ℕ
  pub head_count : ℕ
  pub current : Option ℕ
  pub current_count : ℕ

pub count_head : ℕ → List Text → List (Text × Seen) → List (Text × Seen)
count_head index [] seen = seen
count_head index (x ∷ head) seen = count_head (index + 1) head (elim (lookup x seen) [
  | none ↦
      insert x (record { head = index; head_count = 1; current = none; current_count = 0 }) seen
  | some entry ↦ insert x (record entry { head_count = entry.head_count + 1 }) seen
])

pub count_current : ℕ → List Text → List (Text × Seen) → List (Text × Seen)
count_current index [] seen = seen
count_current index (y ∷ current) seen = count_current (index + 1) current (elim (lookup y seen) [
  | none ↦ seen
  | some entry ↦
      insert y (record entry { current_count = entry.current_count + 1; current = some index }) seen
])

-- the candidate that a block of the head gives
pub candidate : ℕ → Seen → List (ℕ × ℕ)
candidate index entry = elim entry.current [
  | none ↦ []
  | some at ↦
      if entry.head == index && (entry.head_count == 1 && entry.current_count == 1)
      then (index, at) ∷ []
      else []
]

pub candidates_from : ℕ → List Text → List (Text × Seen) → List (ℕ × ℕ)
unfolding candidate
candidates_from index [] seen = []
candidates_from index (x ∷ head) seen =
    (elim (lookup x seen) [ none ↦ [] | some entry ↦ candidate index entry ])
    ++ candidates_from (index + 1) head seen

-- the current index of a candidate
abbrev pub value_at : List (ℕ × ℕ) → ℕ → ℕ
value_at [] i = 0
value_at ((h, c) ∷ cs) zero = c
value_at ((h, c) ∷ cs) (suc i) = value_at cs i

abbrev pub top_at : List ℕ → ℕ → ℕ
top_at [] i = 0
top_at (t ∷ ts) zero = t
top_at (t ∷ ts) (suc i) = top_at ts i

-- The binary search: the first place whose top is not below the value. The fuel is above the width.
pub search_top : List (ℕ × ℕ) → List ℕ → ℕ → ℕ → ℕ → ℕ → ℕ
search_top candidates tops value zero low high = low
search_top candidates tops value (suc fuel) low high =
    let middle = (low + high) / 2 in
    let up = search_top candidates tops value fuel (middle + 1) high in
    let down = search_top candidates tops value fuel low middle in
    if ltb low high
    then if ltb (value_at candidates (top_at tops middle)) value then up else down
    else low

-- `tops[low] = index`, which writes a top or appends one
pub set_top : List ℕ → ℕ → ℕ → List ℕ
set_top [] low index = index ∷ []
set_top (t ∷ ts) zero index = index ∷ ts
set_top (t ∷ ts) (suc low) index = t ∷ set_top ts low index

-- The loop over the candidates, from `index` on; `previous` holds an entry for each one before it.
pub patience : List (ℕ × ℕ) → ℕ → List (ℕ × ℕ) → List ℕ → List (Option ℕ) → List ℕ × List (Option ℕ)
unfolding search_top set_top
patience candidates index [] tops previous = (tops, previous)
patience candidates index ((h, value) ∷ rest) tops previous =
    let low = search_top candidates tops value (suc (length tops)) 0 (length tops) in
    patience candidates (index + 1) rest (set_top tops low index)
      (previous ++ (if ltb 0 low then some (top_at tops (low - 1)) else none) ∷ [])

abbrev pub previous_at : List (Option ℕ) → ℕ → Option ℕ
previous_at [] i = none
previous_at (p ∷ ps) zero = p
previous_at (p ∷ ps) (suc i) = previous_at ps i

-- The chain of a top, put in front of what was collected. The fuel is above the index.
pub chain : List (ℕ × ℕ) → List (Option ℕ) → ℕ → Option ℕ → List (ℕ × ℕ) → List (ℕ × ℕ)
chain candidates previous fuel none anchors = anchors
chain candidates previous zero (some index) anchors = anchors
chain candidates previous (suc fuel) (some index) anchors = elim (get_elem? candidates index) [
  | none ↦ anchors
  | some pair ↦ chain candidates previous fuel (previous_at previous index) (pair ∷ anchors)
]

abbrev pub last_top : List ℕ → Option ℕ
last_top [] = none
last_top (t ∷ []) = some t
last_top (t ∷ u ∷ ts) = last_top (u ∷ ts)

-- `uniqueAnchors` over the two middles, which begin at the two indices
unfoldable pub unique_anchors : ℕ → ℕ → List Text → List Text → List (ℕ × ℕ)
unfolding count_head count_current candidates_from patience chain lookup insert
unique_anchors head_start current_start head current =
    let seen = count_current current_start current (count_head head_start head []) in
    let candidates = candidates_from head_start head seen in
    let (tops, previous) = patience candidates 0 candidates [] [] in
    chain candidates previous (suc (length candidates)) (last_top tops) []
