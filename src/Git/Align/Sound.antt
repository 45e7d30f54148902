-- ===== src/Git/Align/Sound.antt =====
-- The alignment of two notes of block-diff.ts, and the ranges that it is made of.
use noto.Common.{
  ℕ, zero, suc, ◌+◌, ◌-◌, ◌*◌, ◌≤◌, ◌≡◌, inl, inr, ◌&&◌, Option, none, some, List, [], ◌∷◌, arith,
  ltb, leb, Bool-cases, ◌==◌, nat_eq, list_eq, length, slice, Text,
}
use noto.Git.Pairs.{Aligned, Middle, Middle-take, Aligned-append}
use noto.Git.Table.Walk.{table_align-Aligned}
use noto.Git.Anchors.{unique_anchors}
use noto.Git.Anchors.Chain.{unique_anchors-Aligned}
use noto.Git.Align.{
  common_prefix, common_suffix, align_anchors, align_middle, align_ends, align_range, alignment,
  max_anchor_depth,
}
use noto.Git.Align.Ends.{common_prefix-Aligned, common_suffix-equal, common_suffix-Aligned}

module _ (head current : List Text) where
  -- A way to align ranges that is sound on every range of the two notes.
  abbrev IsSound : (ℕ → ℕ → ℕ → ℕ → List (ℕ × ℕ)) → Type 0
  IsSound range =
      (h h_end c c_end : ℕ)
      → h ≤ h_end
      → h_end ≤ length head
      → c ≤ c_end
      → c_end ≤ length current
      → Aligned head current h c h_end c_end (range h h_end c c_end)

  Middle-slice :
      (note : List Text) (i end : ℕ)
      → i ≤ end
      → end ≤ length note
      → Middle note i end (slice i end note)
  Middle-slice note i end l r =
      let e : i + (end - i) ≡ end = omega arith in
      rw e at (Middle-take note i (end - i) (omega arith))

  align_anchors-Aligned :
      (range : ℕ → ℕ → ℕ → ℕ → List (ℕ × ℕ)) (h c h_end c_end head_at current_at : ℕ)
      (anchors : List (ℕ × ℕ))
      → IsSound range
      → head_at ≤ h_end
      → h_end ≤ length head
      → current_at ≤ c_end
      → c_end ≤ length current
      → Aligned head current head_at current_at h_end c_end anchors
      → Aligned head current head_at current_at h_end c_end
          (align_anchors range h c h_end c_end head_at current_at anchors)
  unfolding align_anchors
  align_anchors-Aligned range h c h_end c_end head_at current_at [] s l l' r r' a =
      elim (Bool-cases (head_at == h && current_at == c)) [
        | inl e ↦ rw (e, align_anchors) tt
        | inr e ↦ rw (e, align_anchors) (s head_at h_end current_at c_end l l' r r')
      ]
  align_anchors-Aligned range h c h_end c_end head_at current_at ((i, j) ∷ anchors) s l l' r r'
        (p, q, hi, hi', same, rest) =
      Aligned-append head current head_at current_at i j h_end c_end (range head_at i current_at j)
        _ p q (omega arith) (omega arith) (s head_at i current_at j p (omega arith) q (omega arith))
        (
          omega arith,
          omega arith,
          hi,
          hi',
          same,
          align_anchors-Aligned range h c h_end c_end (i + 1) (j + 1) anchors s (omega arith) l'
              (omega arith) r' rest,
        )

  -- The levels below, if there are any, are sound.
  abbrev IsSoundNext : Option (ℕ → ℕ → ℕ → ℕ → List (ℕ × ℕ)) → Type 0
  IsSoundNext none = Unit
  IsSoundNext (some range) = IsSound range

  align_middle-Aligned :
      (max_cells : ℕ) (next : Option (ℕ → ℕ → ℕ → ℕ → List (ℕ × ℕ)))
      → IsSoundNext next
      → IsSound (align_middle head current max_cells next)
  unfolding align_middle
  align_middle-Aligned max_cells next s h h_end c c_end l l' r r' =
      elim (Bool-cases (ltb h h_end && ltb c c_end)) [
        | inr e ↦ rw (e, align_middle) tt
        | inl e ↦ elim (Bool-cases (leb ((h_end - h) * (c_end - c)) max_cells)) [
          | inl fits ↦
              rw (e, fits, align_middle)
                (table_align-Aligned head current h c h_end c_end _ _
                  (Middle-slice head h h_end l l') (Middle-slice current c c_end r r'))
          | inr large ↦ rw (e, large, align_middle) (deeper next s)
        ]
      ]
    where
      deeper :
          (next : Option (ℕ → ℕ → ℕ → ℕ → List (ℕ × ℕ)))
          → IsSoundNext next
          → Aligned head current h c h_end c_end (elim next [
            | none ↦ []
            | some range ↦
                align_anchors range h c h_end c_end h c
                  (unique_anchors h c (slice h h_end head) (slice c c_end current))
          ])
      deeper none s = tt
      deeper (some range) s = align_anchors-Aligned range h c h_end c_end h c _ s l l' r r' (
          unique_anchors-Aligned head current h c h_end c_end _ _ (Middle-slice head h h_end l l')
            (Middle-slice current c c_end r r'))

  align_ends-Aligned :
      (max_cells : ℕ) (next : Option (ℕ → ℕ → ℕ → ℕ → List (ℕ × ℕ)))
      → IsSoundNext next
      → IsSound (align_ends head current max_cells next)
  unfolding align_ends
  align_ends-Aligned max_cells next s h h_end c c_end l l' r r' =
      let n = common_prefix head current c_end (h_end - h) h c in
      let m = common_suffix head current (h + n) (c + n) h_end c_end in
      let (a, b, first) = common_prefix-Aligned head current c_end (h_end - h) h c r in
      let (p, q, same) =
        common_suffix-equal head current (h + n) (c + n) h_end c_end (omega arith) b in
      let last = common_suffix-Aligned head current (h + n) (c + n) h_end c_end (omega arith) b in
      let middle =
        align_middle-Aligned max_cells next s (h + n) (h_end - m) (c + n) (c_end - m) (omega arith)
          (omega arith) (omega arith) (omega arith) in
      Aligned-append head current h c (h + n) (c + n) h_end c_end _ _ (omega arith) (omega arith)
        (omega arith) (omega arith) first
        (Aligned-append head current (h + n) (c + n) (h_end - m) (c_end - m) h_end c_end _ _
          (omega arith) (omega arith) (omega arith) (omega arith) middle last)

  align_range-Aligned : (max_cells left : ℕ) → IsSound (align_range head current max_cells left)
  unfolding align_range
  align_range-Aligned max_cells zero = align_ends-Aligned max_cells none tt
  align_range-Aligned max_cells (suc left) =
      align_ends-Aligned max_cells (some (align_range head current max_cells left))
        (align_range-Aligned max_cells left)

-- The alignment of two notes, whatever the bound on the cells, joins equal blocks, and its pairs
-- rise on both sides and lie within the notes.
pub alignment-Aligned :
    (head current : List Text) (max_cells : ℕ)
    → Aligned head current 0 0 (length head) (length current) (alignment head current max_cells)
unfolding alignment
alignment-Aligned head current max_cells =
    align_range-Aligned head current max_cells max_anchor_depth 0 (length head) 0 (length current)
      (omega arith) (omega arith) (omega arith) (omega arith)
