-- ===== src/Git/Align.antt =====
-- `alignment` and `alignRange` of block-diff.ts: the common beginning and end, and between them a
-- table where it fits, or anchors and the stretches between them. What is left of the depth is the
-- argument of the recursion: 32 levels at most.
pub mod Ends
pub mod Sound
pub mod Longest
pub mod Self
use noto.Common.{
  ℕ, zero, suc, ◌+◌, ◌-◌, ◌*◌, Bool, true, false, not, ◌&&◌, Option, none, some, List, [], ◌∷◌,
  ◌++◌, ltb, leb, if◌then◌else◌, is_some, ◌==◌, nat_eq, list_eq, length, get_elem?, slice, Text,
}
use noto.Git.Table.{table_align}
use noto.Git.Anchors.{unique_anchors}

abbrev pub max_alignment_cells : ℕ
max_alignment_cells = 4_000_000

abbrev pub max_anchor_depth : ℕ
max_anchor_depth = 32

-- `head[i] === current[j]`
pub equal_at : List Text → List Text → ℕ → ℕ → Bool
equal_at head current i j = elim (get_elem? head i) [
  | none ↦ not (is_some (get_elem? current j))
  | some x ↦ (elim (get_elem? current j) [ none ↦ false | some y ↦ x == y ])
]

-- How often the first loop runs; `left` is `headEnd - headStart`.
pub common_prefix : List Text → List Text → ℕ → ℕ → ℕ → ℕ → ℕ
unfolding equal_at
common_prefix head current c_end zero h c = 0
common_prefix head current c_end (suc left) h c =
    let rest = common_prefix head current c_end left (h + 1) (c + 1) in
    if ltb c c_end && equal_at head current h c then suc rest else 0

-- How often the second loop runs, by the two ends.
pub common_suffix : List Text → List Text → ℕ → ℕ → ℕ → ℕ → ℕ
unfolding equal_at
common_suffix head current h c zero c_end = 0
common_suffix head current h c (suc h_end) zero = 0
common_suffix head current h c (suc h_end) (suc c_end) =
    let rest = common_suffix head current h c h_end c_end in
    if leb h h_end && (leb c c_end && equal_at head current h_end c_end) then suc rest else 0

-- The pairs of a stretch that is equal on both sides.
unfoldable pub run_pairs : ℕ → ℕ → ℕ → List (ℕ × ℕ)
run_pairs h c zero = []
run_pairs h c (suc n) = (h, c) ∷ run_pairs (h + 1) (c + 1) n

-- The loop over the anchors, with what aligns a range on the next level.
pub align_anchors :
    (ℕ → ℕ → ℕ → ℕ → List (ℕ × ℕ)) → ℕ → ℕ → ℕ → ℕ → ℕ → ℕ → List (ℕ × ℕ) → List (ℕ × ℕ)
align_anchors range h c h_end c_end head_at current_at [] = elim (head_at == h && current_at == c) [
  | true ↦ []
  | false ↦ range head_at h_end current_at c_end
]
align_anchors range h c h_end c_end head_at current_at ((i, j) ∷ anchors) =
    range head_at i current_at j
    ++ (i, j) ∷ align_anchors range h c h_end c_end (i + 1) (j + 1) anchors

-- What is aligned between the common beginning and the common end; `next` aligns a range on the
-- next level, if the depth allows one.
pub align_middle :
    List Text → List Text → ℕ → Option (ℕ → ℕ → ℕ → ℕ → List (ℕ × ℕ)) → ℕ → ℕ → ℕ → ℕ → List (ℕ × ℕ)
unfolding align_anchors
align_middle head current max_cells next h h_end c c_end = elim (ltb h h_end && ltb c c_end) [
  | false ↦ []
  | true ↦ elim (leb ((h_end - h) * (c_end - c)) max_cells) [
    | true ↦ table_align h c (slice h h_end head) (slice c c_end current)
    | false ↦ elim next [
      | none ↦ []
      | some range ↦
          align_anchors range h c h_end c_end h c
            (unique_anchors h c (slice h h_end head) (slice c c_end current))
    ]
  ]
]

-- A range of both notes with its common beginning and end taken off.
pub align_ends :
    List Text → List Text → ℕ → Option (ℕ → ℕ → ℕ → ℕ → List (ℕ × ℕ)) → ℕ → ℕ → ℕ → ℕ → List (ℕ × ℕ)
unfolding common_prefix common_suffix run_pairs align_middle
align_ends head current max_cells next h h_end c c_end =
    let n = common_prefix head current c_end (h_end - h) h c in
    let m = common_suffix head current (h + n) (c + n) h_end c_end in
    run_pairs h c n
    ++ (align_middle head current max_cells next (h + n) (h_end - m) (c + n) (c_end - m)
        ++ run_pairs (h_end - m) (c_end - m) m)

-- `alignRange`, with `left` levels below this one.
pub align_range : List Text → List Text → ℕ → ℕ → ℕ → ℕ → ℕ → ℕ → List (ℕ × ℕ)
unfolding align_ends
align_range head current max_cells zero h h_end c c_end =
    align_ends head current max_cells none h h_end c c_end
align_range head current max_cells (suc left) h h_end c c_end =
    align_ends head current max_cells (some (align_range head current max_cells left)) h h_end c
      c_end

unfoldable pub alignment : List Text → List Text → ℕ → List (ℕ × ℕ)
unfolding align_range
alignment head current max_cells =
    align_range head current max_cells max_anchor_depth 0 (length head) 0 (length current)
