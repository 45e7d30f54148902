-- ===== src/Git/Diff/Undo/Whole.antt =====
-- Undoing the whole diff of block-diff.ts.
use noto.Common.{
  ℕ, ◌+◌, ◌-◌, ◌≤◌, ◌≡◌, sym, ap, ◌∙◌, inl, inr, Bool, ◌&&◌, List, [], ◌∷◌, ◌++◌, append-nil, arith,
  ltb, leb, Bool-cases, nat_eq, list_eq, length, drop, slice, length-take, length-drop, drop-cons,
  Text, slice_rest, drop_all, slice_then_drop,
}
use native.Mathlib.Nat.{add-zero}
use noto.Git.Pairs.{Aligned}
use noto.Git.Align.{alignment}
use noto.Git.Align.Sound.{alignment-Aligned}
use noto.Git.Similar.{Doubles, similar_pairs}
use noto.Git.Similar.Rise.{IsRising, similar_pairs-IsRising}
use noto.Git.Diff.{
  GitBlockDiff, GitChangedBlock, GitDeletedBlocks, max_similarity_run, settle, diff_from,
  diff_blocks,
}
use noto.Git.Diff.Undo.{
  undo, undo_block, undo_at, undo_block_at, DeletedFrom, ChangedFrom-le, DeletedFrom-le,
  undo_block_same, undo_block_nil,
}
use noto.Git.Diff.Undo.Settle.{
  IsFrom, positional-IsFrom, settle_pairs-IsFrom, positional-undo, settle_pairs-undo,
  ChangedFrom-append_list, DeletedFrom-append_list,
}

-- The committed note, from the current one and the diff.
abbrev pub undo_diff : List Text → GitBlockDiff → List Text
undo_diff current diff = undo 0 current diff.changed diff.deleted

module _ (head : List Text) (d : Doubles) (words : Text → List Text) (current : List Text) where
  -- The similar pairs of two stretches, counted from their beginnings.
  stretch_pairs-IsRising :
      (h h_to c c_to : ℕ)
      → h_to ≤ length head
      → c_to ≤ length current
      → IsRising 0 0
          (h_to - h)
          (c_to - c)
          (similar_pairs d words (slice h h_to head) (slice c c_to current))
  stretch_pairs-IsRising h h_to c c_to l r =
      let e : length (slice h h_to head) ≡ h_to - h =
        omega (arith, length-take (h_to - h) (drop h head), length-drop h head) in
      let f : length (slice c c_to current) ≡ c_to - c =
        omega (arith, length-take (c_to - c) (drop c current), length-drop c current) in
      rw (e, f) at (similar_pairs-IsRising d words (slice h h_to head) (slice c c_to current))

  abbrev is_paired : ℕ → ℕ → ℕ → ℕ → Bool
  is_paired h c h_to c_to =
      ltb 0 (h_to - h)
      && (ltb 0 (c_to - c)
          && (ltb 2 (h_to - h + (c_to - c))
              && (leb (h_to - h) max_similarity_run && leb (c_to - c) max_similarity_run)))

  settle-IsFrom :
      (h c h_to c_to : ℕ)
      → h_to ≤ length head
      → c ≤ c_to
      → c_to ≤ length current
      → IsFrom head c (settle head d words current h c h_to c_to)
  unfolding settle
  settle-IsFrom h c h_to c_to l r r' = elim (Bool-cases (is_paired h c h_to c_to)) [
    | inl e ↦
        rw (e, settle)
          (settle_pairs-IsFrom head c h c h_to c_to h c 0 0 _ (omega arith) r (sym (add-zero c))
            (stretch_pairs-IsRising h h_to c c_to l r'))
    | inr e ↦ rw (e, settle) (positional-IsFrom head c h h_to c c_to (omega arith) r)
  ]

  settle-undo :
      (h c h_to c_to : ℕ) (cs : List GitChangedBlock) (ds : List GitDeletedBlocks)
      → h ≤ h_to
      → h_to ≤ length head
      → c ≤ c_to
      → c_to ≤ length current
      → DeletedFrom (c_to + 1) ds
      → undo_at head current c
          ((settle head d words current h c h_to c_to).changed ++ cs)
          ((settle head d words current h c h_to c_to).deleted ++ ds)
        ≡ slice h h_to head ++ undo_block_at head current c_to cs ds
  unfolding settle
  settle-undo h c h_to c_to cs ds l l' r r' f = elim (Bool-cases (is_paired h c h_to c_to)) [
    | inl e ↦
        rw (e, settle)
          (settle_pairs-undo head current h c h_to c_to h c 0 0 _ cs ds (sym (add-zero h))
            (sym (add-zero c)) (stretch_pairs-IsRising h h_to c c_to l' r') l r l' r' f)
    | inr e ↦ rw (e, settle) (positional-undo head current h h_to c c_to cs ds l l' r r' f)
  ]

  diff_from-IsFrom :
      (h c : ℕ) (pairs : List (ℕ × ℕ))
      → c ≤ length current
      → Aligned head current h c (length head) (length current) pairs
      → IsFrom head c (diff_from head d words current h c pairs)
  unfolding diff_from
  diff_from-IsFrom h c [] l a =
      settle-IsFrom h c (length head) (length current) (omega arith) l (omega arith)
  diff_from-IsFrom h c ((i, j) ∷ pairs) l (p, q, hi, hi', same, rest) =
      let (x, y) = settle-IsFrom h c i j (omega arith) q (omega arith) in
      let (u, v) = diff_from-IsFrom (i + 1) (j + 1) pairs (omega arith) rest in
      (
        ChangedFrom-append_list c _ _ x (ChangedFrom-le c (j + 1) _ (omega arith) u),
        DeletedFrom-append_list c _ _ y (DeletedFrom-le c (j + 1) _ (omega arith) v),
      )

  diff_from-undo :
      (h c : ℕ) (pairs : List (ℕ × ℕ))
      → h ≤ length head
      → c ≤ length current
      → Aligned head current h c (length head) (length current) pairs
      → undo_at head current c
          (diff_from head d words current h c pairs).changed
          (diff_from head d words current h c pairs).deleted
        ≡ drop h head
  unfolding diff_from
  diff_from-undo h c [] l r a =
      let s = settle head d words current h c (length head) (length current) in
      ap (λ cs. undo_at head current c cs s.deleted) (sym (append-nil s.changed))
      ∙ ap (λ ds. undo_at head current c (s.changed ++ []) ds) (sym (append-nil s.deleted))
      ∙ settle-undo h c (length head) (length current) [] [] l (omega arith) r (omega arith) tt
      ∙ ap (λ ys. slice h (length head) head ++ undo_block (length current) ys [] [])
          (drop_all (length current) current (omega arith))
      ∙ ap (λ zs. slice h (length head) head ++ zs) (undo_block_nil (length current) [] [])
      ∙ append-nil (slice h (length head) head)
      ∙ slice_rest h head
  diff_from-undo h c ((i, j) ∷ pairs) l r (p, q, hi, hi', same, rest) =
      let more = diff_from head d words current (i + 1) (j + 1) pairs in
      let (u, v) = diff_from-IsFrom (i + 1) (j + 1) pairs (omega arith) rest in
      let (x, at_x, is_x) = drop-cons i head hi in
      let (y, at_y, is_y) = drop-cons j current hi' in
      let equal : y ≡ x = ground (arith, at_x, at_y, same) in
      let block : undo_block_at head current j more.changed more.deleted ≡ drop i head =
        ap (λ ys. undo_block j ys more.changed more.deleted) is_y
        ∙ undo_block_same j y (drop (j + 1) current) more.changed more.deleted u
        ∙ ap (λ zs. y ∷ zs) (diff_from-undo (i + 1) (j + 1) pairs (omega arith) (omega arith) rest)
        ∙ ap (λ z. z ∷ drop (i + 1) head) equal
        ∙ sym is_x in
      settle-undo h c i j more.changed more.deleted p (omega arith) q (omega arith) v
      ∙ ap (λ zs. slice h i head ++ zs) block
      ∙ slice_then_drop h i head p

-- Whatever the notes, the bound on the cells, the words of a block and the arithmetic: the current
-- note becomes the committed one again, block for block, when each changed block is replaced by the
-- committed block that the diff names for it, each added one is left out and the deleted ones are
-- put back where the diff marks them.
pub undo-diff_blocks :
    (d : Doubles) (words : Text → List Text) (head current : List Text) (max_cells : ℕ)
    → undo_diff current (diff_blocks d words head current max_cells) ≡ head
unfolding diff_blocks
undo-diff_blocks d words head current max_cells =
    diff_from-undo head d words current 0 0 (alignment head current max_cells) (omega arith)
      (omega arith) (alignment-Aligned head current max_cells)
