-- ===== src/Git/Diff/Undo/Settle.antt =====
-- What settling a stretch between two matched blocks undoes to.
use noto.Common.{
  Option, drop-cons, slice-cons, get_elem?, ℕ, zero, suc, ◌+◌, ◌-◌, ◌≤◌, min, ◌≡◌, sym, ap, ◌∙◌,
  inl, inr, List, [], ◌∷◌, ◌++◌, append_assoc, arith, ltb, Bool-cases, nat_eq, list_eq, length,
  drop, slice, Text, slice-append, slice_none,
}
use noto.Git.Similar.Rise.{IsRising}
use noto.Git.Diff.{
  modified, modified_block, GitBlockDiff, GitChangedBlock, GitDeletedBlocks, modified_run,
  added_run, deleted_run, positional, settle_pairs,
}
use noto.Git.Diff.Undo.{
  block_list, undo_block_changed, undo_block, undo_at, undo_block_at, DeletedFrom, ChangedFrom,
  DeletedFrom-le, undo_later, undo_gone, undo-added_run, undo-modified_run,
}

pub ChangedFrom-append_list :
    (k : ℕ) (cs ds : List GitChangedBlock)
    → ChangedFrom k cs
    → ChangedFrom k ds
    → ChangedFrom k (cs ++ ds)
ChangedFrom-append_list k [] ds p q = q
ChangedFrom-append_list k (c ∷ cs) ds p q = p

pub DeletedFrom-append_list :
    (k : ℕ) (cs ds : List GitDeletedBlocks)
    → DeletedFrom k cs
    → DeletedFrom k ds
    → DeletedFrom k (cs ++ ds)
DeletedFrom-append_list k [] ds p q = q
DeletedFrom-append_list k (c ∷ cs) ds p q = p

module _ (head : List Text) where
  DeletedFrom-deleted_run :
      (k from to before : ℕ) → k ≤ before → DeletedFrom k (deleted_run head from to before)
  unfolding deleted_run
  DeletedFrom-deleted_run k from to before h = elim (Bool-cases (ltb from to)) [
    | inl e ↦ rw (e, deleted_run) h
    | inr e ↦ rw (e, deleted_run) tt
  ]

  ChangedFrom-runs :
      (k n m h c : ℕ) → k ≤ c → ChangedFrom k (modified_run head n h c ++ added_run head m (c + n))
  unfolding modified_run added_run
  ChangedFrom-runs k zero zero h c l = tt
  ChangedFrom-runs k zero (suc m) h c l = omega arith
  ChangedFrom-runs k (suc n) m h c l = l

  -- Everything that a stretch gives is at its first block or after it.
  abbrev pub IsFrom : ℕ → GitBlockDiff → Type 0
  IsFrom k diff = ChangedFrom k diff.changed × DeletedFrom k diff.deleted

  pub positional-IsFrom :
      (k h h_to c c_to : ℕ) → k ≤ c → c ≤ c_to → IsFrom k (positional head h h_to c c_to)
  unfolding positional
  positional-IsFrom k h h_to c c_to l r = (
    ChangedFrom-runs k (min (h_to - h) (c_to - c)) (c_to - c - min (h_to - h) (c_to - c)) h c l,
    DeletedFrom-deleted_run k _ h_to c_to (omega arith),
  )

  pub settle_pairs-IsFrom :
      (k head_at current_at head_to current_to head_from current_from j0 i0 : ℕ)
      (pairs : List (ℕ × ℕ))
      → k ≤ current_from
      → current_from ≤ current_to
      → current_from ≡ current_at + j0
      → IsRising i0 j0 (head_to - head_at) (current_to - current_at) pairs
      → IsFrom k
          (settle_pairs head head_at current_at head_to current_to head_from current_from pairs)
  unfolding settle_pairs
  settle_pairs-IsFrom k head_at current_at head_to current_to head_from current_from j0 i0 [] l r e
        s =
      positional-IsFrom k head_from head_to current_from current_to l r
  settle_pairs-IsFrom k head_at current_at head_to current_to head_from current_from j0 i0
        ((i, j) ∷ pairs) l r e (p, q, hi, hi', rest) =
      let (a, b) =
        positional-IsFrom k head_from (head_at + i) current_from (current_at + j) l (omega arith) in
      let (_, d) =
        settle_pairs-IsFrom k head_at current_at head_to current_to (head_at + i + 1)
          (current_at + j + 1) (j + 1) (i + 1) pairs (omega arith) (omega arith) (omega arith)
          rest in
      (ChangedFrom-append_list k _ _ a (omega arith), DeletedFrom-append_list k _ _ b d)

  module _ (current : List Text) where
    undo-deleted_run :
        (from to k : ℕ) (cs : List GitChangedBlock) (ds : List GitDeletedBlocks)
        → DeletedFrom (k + 1) ds
        → undo_at head current k cs (deleted_run head from to k ++ ds)
          ≡ slice from to head ++ undo_block_at head current k cs ds
    unfolding deleted_run
    undo-deleted_run from to k cs ds h = elim (Bool-cases (ltb from to)) [
      | inl e ↦ rw (e, deleted_run) (undo_gone k (drop k current) (slice from to head) _ cs ds)
      | inr e ↦
          let nothing = slice_none from to head (ground arith) in
          rw (e, nothing, deleted_run) (undo_later k (drop k current) cs ds h)
    ]

    pub positional-undo :
        (h h_to c c_to : ℕ) (cs : List GitChangedBlock) (ds : List GitDeletedBlocks)
        → h ≤ h_to
        → h_to ≤ length head
        → c ≤ c_to
        → c_to ≤ length current
        → DeletedFrom (c_to + 1) ds
        → undo_at head current c
            ((positional head h h_to c c_to).changed ++ cs)
            ((positional head h h_to c c_to).deleted ++ ds)
          ≡ slice h h_to head ++ undo_block_at head current c_to cs ds
    unfolding positional
    positional-undo h h_to c c_to cs ds l l' r r' f =
        let p = min (h_to - h) (c_to - c) in
        let gone = deleted_run head (h + p) h_to c_to ++ ds in
        let from_end =
          DeletedFrom-append_list c_to (deleted_run head (h + p) h_to c_to) ds
            (DeletedFrom-deleted_run c_to (h + p) h_to c_to (omega arith))
            (DeletedFrom-le c_to (c_to + 1) ds (omega arith) f) in
        let e : c + p + (c_to - c - p) ≡ c_to = omega arith in
        let more = added_run head (c_to - c - p) (c + p) in
        (rw (append_assoc (modified_run head p h c) more cs))
        ∙ undo-modified_run head current p h c (more ++ cs) gone (omega arith) (omega arith)
            (DeletedFrom-le (c + p) c_to gone (omega arith) from_end)
        ∙ ap (λ zs. slice h (h + p) head ++ zs)
            (undo-added_run head current (c_to - c - p) (c + p) cs gone (omega arith)
                (rw e from_end)
              ∙ (rw e (undo-deleted_run (h + p) h_to c_to cs ds f)))
        ∙ sym (
            append_assoc (slice h (h + p) head) (slice (h + p) h_to head)
              (undo_block_at head current c_to cs ds))
        ∙ ap (λ zs. zs ++ undo_block_at head current c_to cs ds)
            (slice-append h (h + p) h_to head (omega arith) (omega arith))

    pub settle_pairs-undo :
        (head_at current_at head_to current_to head_from current_from i0 j0 : ℕ)
        (pairs : List (ℕ × ℕ)) (cs : List GitChangedBlock) (ds : List GitDeletedBlocks)
        → head_from ≡ head_at + i0
        → current_from ≡ current_at + j0
        → IsRising i0 j0 (head_to - head_at) (current_to - current_at) pairs
        → head_from ≤ head_to
        → current_from ≤ current_to
        → head_to ≤ length head
        → current_to ≤ length current
        → DeletedFrom (current_to + 1) ds
        → undo_at head current current_from
            ((settle_pairs head head_at current_at head_to current_to head_from current_from
                pairs).changed
              ++ cs)
            ((settle_pairs head head_at current_at head_to current_to head_from current_from
                pairs).deleted
              ++ ds)
          ≡ slice head_from head_to head ++ undo_block_at head current current_to cs ds
    unfolding settle_pairs
    settle_pairs-undo head_at current_at head_to current_to head_from current_from i0 j0 [] cs ds e
          f s l r l' r' d =
        positional-undo head_from head_to current_from current_to cs ds l l' r r' d
    settle_pairs-undo head_at current_at head_to current_to head_from current_from i0 j0
          ((i, j) ∷ pairs) cs ds e f (p, q, hi, hi', rest) l r l' r' d =
        let a = head_at + i in
        let b = current_at + j in
        let first = positional head head_from a current_from b in
        let after = settle_pairs head head_at current_at head_to current_to (a + 1) (b + 1) pairs in
        let m = modified_block b (get_elem? head a) in
        let (x, at, is) = slice-cons a head_to head (omega arith) (omega arith) in
        let (y, at_y, is_y) = drop-cons b current (omega arith) in
        let (_, from) =
          settle_pairs-IsFrom (b + 1) head_at current_at head_to current_to (a + 1) (b + 1) (j + 1)
            (i + 1) pairs (omega arith) (omega arith) (omega arith) rest in
        let later =
          DeletedFrom-append_list (b + 1) after.deleted ds from
            (DeletedFrom-le (b + 1) (current_to + 1) ds (omega arith) d) in
        let left = append_assoc first.changed (m ∷ after.changed) cs in
        let gone = append_assoc first.deleted after.deleted ds in
        let block : undo_block_at head current b (m ∷ after.changed ++ cs) (after.deleted ++ ds)
            ≡ x ∷ (slice (a + 1) head_to head ++ undo_block_at head current current_to cs ds) =
          ap (λ ys. undo_block b ys (m ∷ after.changed ++ cs) (after.deleted ++ ds)) is_y
          ∙ undo_block_changed b y (drop (b + 1) current) modified (get_elem? head a)
              (after.changed ++ cs) (after.deleted ++ ds)
          ∙ ap
              (λ (o : Option Text).
                block_list o
                ++ undo_at head current (b + 1) (after.changed ++ cs) (after.deleted ++ ds))
              at
          ∙ ap (λ zs. x ∷ zs)
              (settle_pairs-undo head_at current_at head_to current_to (a + 1) (b + 1) (i + 1)
                (j + 1) pairs cs ds (omega arith) (omega arith) rest (omega arith) (omega arith) l'
                r' d) in
        (rw (left, gone))
        ∙ positional-undo head_from a current_from b (m ∷ after.changed ++ cs) (after.deleted ++ ds)
            (omega arith) (omega arith) (omega arith) (omega arith) later
        ∙ ap (λ zs. slice head_from a head ++ zs) block
        ∙ sym (
            append_assoc (slice head_from a head) (x ∷ slice (a + 1) head_to head)
              (undo_block_at head current current_to cs ds))
        ∙ ap (λ zs. zs ++ undo_block_at head current current_to cs ds)
            (ap (λ zs. slice head_from a head ++ zs) (sym is)
              ∙ slice-append head_from a head_to head (omega arith) (omega arith))
