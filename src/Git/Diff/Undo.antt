-- ===== src/Git/Diff/Undo.antt =====
-- Undoing a diff: the note as committed is what the current note becomes when the changed blocks are
-- replaced, the added ones dropped and the deleted ones put back.
pub mod Settle
pub mod Whole
use noto.Common.{
  ℕ, zero, suc, ◌+◌, ◌-◌, ◌≤◌, ◌≡◌, refl, sym, ap, ◌∙◌, true, false, Option, none, some, List, [],
  ◌∷◌, ◌++◌, append-nil, arith, nat_beq, ◌==◌, nat_eq, list_eq, ==_refl, length, get_elem?, drop,
  slice, drop-cons, Text,
}
use noto.Git.Diff.{
  GitBlockChange, modified, added, GitChangedBlock, GitDeletedBlocks, modified_run, added_run,
}

abbrev pub block_list : Option Text → List Text
block_list none = []
block_list (some x) = x ∷ []

-- The deleted blocks that stood before an index, and the entries after.
abbrev pub gone_at : ℕ → List GitDeletedBlocks → List Text × List GitDeletedBlocks
gone_at k [] = ([], [])
gone_at k (d ∷ deleted) = elim (d.before == k) [
  | true ↦ (d.heads, deleted)
  | false ↦ ([], d ∷ deleted)
]

-- What a block was, and the entries after.
abbrev pub block_at : ℕ → Text → List GitChangedBlock → List Text × List GitChangedBlock
block_at k y [] = (y ∷ [], [])
block_at k y (c ∷ changed) = elim (c.ordinal == k) [
  | true ↦ (block_list c.head, changed)
  | false ↦ (y ∷ [], c ∷ changed)
]

-- The committed blocks that the current blocks from an index on stand for.
pub undo : ℕ → List Text → List GitChangedBlock → List GitDeletedBlocks → List Text
undo k [] changed deleted = (gone_at k deleted).0
undo k (y ∷ ys) changed deleted =
    (gone_at k deleted).0
    ++ ((block_at k y changed).0 ++ undo (k + 1) ys (block_at k y changed).1 (gone_at k deleted).1)

-- The same where the deleted blocks before the first index are already back.
pub undo_block : ℕ → List Text → List GitChangedBlock → List GitDeletedBlocks → List Text
unfolding undo
undo_block k [] changed deleted = []
undo_block k (y ∷ ys) changed deleted =
    (block_at k y changed).0 ++ undo (k + 1) ys (block_at k y changed).1 deleted

-- The first entry is at an index or after it.
abbrev pub DeletedFrom : ℕ → List GitDeletedBlocks → Type 0
DeletedFrom k [] = Unit
DeletedFrom k (d ∷ deleted) = k ≤ d.before

abbrev pub ChangedFrom : ℕ → List GitChangedBlock → Type 0
ChangedFrom k [] = Unit
ChangedFrom k (c ∷ changed) = k ≤ c.ordinal

undo-eq :
    (k : ℕ) (ys : List Text) (changed : List GitChangedBlock) (deleted : List GitDeletedBlocks)
    → undo k ys changed deleted
      ≡ (gone_at k deleted).0 ++ undo_block k ys changed (gone_at k deleted).1
unfolding undo undo_block
undo-eq k [] changed deleted = sym (append-nil (gone_at k deleted).0)
undo-eq k (y ∷ ys) changed deleted = refl

gone_at_later :
    (k : ℕ) (deleted : List GitDeletedBlocks)
    → DeletedFrom (k + 1) deleted
    → gone_at k deleted ≡ ([], deleted)
gone_at_later k [] h = refl
gone_at_later k (d ∷ deleted) h =
    let e : nat_beq d.before k ≡ false = ground arith in rw (e, gone_at)

gone_at_here :
    (k : ℕ) (text : Text) (heads : List Text) (deleted : List GitDeletedBlocks)
    → gone_at k ((record { before = k; head = text; heads = heads }) ∷ deleted) ≡ (heads, deleted)
gone_at_here k text heads deleted = rw (==_refl k, gone_at)

pub undo_later :
    (k : ℕ) (ys : List Text) (changed : List GitChangedBlock) (deleted : List GitDeletedBlocks)
    → DeletedFrom (k + 1) deleted
    → undo k ys changed deleted ≡ undo_block k ys changed deleted
undo_later k ys changed deleted h =
    undo-eq k ys changed deleted
    ∙ ap (λ (g : List Text × List GitDeletedBlocks). g.0 ++ undo_block k ys changed g.1)
        (gone_at_later k deleted h)

pub undo_gone :
    (k : ℕ) (ys heads : List Text) (text : Text) (changed : List GitChangedBlock)
    (deleted : List GitDeletedBlocks)
    → undo k ys changed ((record { before = k; head = text; heads = heads }) ∷ deleted)
      ≡ heads ++ undo_block k ys changed deleted
undo_gone k ys heads text changed deleted =
    undo-eq k ys changed _
    ∙ ap (λ (g : List Text × List GitDeletedBlocks). g.0 ++ undo_block k ys changed g.1)
        (gone_at_here k text heads deleted)

block_at_here :
    (k : ℕ) (y : Text) (change : GitBlockChange) (block : Option Text)
    (changed : List GitChangedBlock)
    → block_at k y ((record { ordinal = k; change = change; head = block }) ∷ changed)
      ≡ (block_list block, changed)
block_at_here k y change block changed = rw (==_refl k, block_at)

block_at_later :
    (k : ℕ) (y : Text) (changed : List GitChangedBlock)
    → ChangedFrom (k + 1) changed
    → block_at k y changed ≡ (y ∷ [], changed)
block_at_later k y [] h = refl
block_at_later k y (c ∷ changed) h =
    let e : nat_beq c.ordinal k ≡ false = ground arith in rw (e, block_at)

pub undo_block_changed :
    (k : ℕ) (y : Text) (ys : List Text) (change : GitBlockChange) (block : Option Text)
    (changed : List GitChangedBlock) (deleted : List GitDeletedBlocks)
    → undo_block k
        (y ∷ ys)
        ((record { ordinal = k; change = change; head = block }) ∷ changed)
        deleted
      ≡ block_list block ++ undo (k + 1) ys changed deleted
unfolding undo_block
undo_block_changed k y ys change block changed deleted =
    ap (λ (b : List Text × List GitChangedBlock). b.0 ++ undo (k + 1) ys b.1 deleted)
      (block_at_here k y change block changed)

pub undo_block_same :
    (k : ℕ) (y : Text) (ys : List Text) (changed : List GitChangedBlock)
    (deleted : List GitDeletedBlocks)
    → ChangedFrom (k + 1) changed
    → undo_block k (y ∷ ys) changed deleted ≡ y ∷ undo (k + 1) ys changed deleted
unfolding undo_block
undo_block_same k y ys changed deleted h =
    ap (λ (b : List Text × List GitChangedBlock). b.0 ++ undo (k + 1) ys b.1 deleted)
      (block_at_later k y changed h)

pub DeletedFrom-le :
    (k k' : ℕ) (deleted : List GitDeletedBlocks)
    → k ≤ k'
    → DeletedFrom k' deleted
    → DeletedFrom k deleted
DeletedFrom-le k k' [] l h = tt
DeletedFrom-le k k' (d ∷ deleted) l h = omega arith

module _ (head current : List Text) where
  -- What undoing leaves from a current index on.
  abbrev pub undo_at : ℕ → List GitChangedBlock → List GitDeletedBlocks → List Text
  undo_at k changed deleted = undo k (drop k current) changed deleted

  abbrev pub undo_block_at : ℕ → List GitChangedBlock → List GitDeletedBlocks → List Text
  undo_block_at k changed deleted = undo_block k (drop k current) changed deleted

  pub undo-added_run :
      (n k : ℕ) (changed : List GitChangedBlock) (deleted : List GitDeletedBlocks)
      → k + n ≤ length current
      → DeletedFrom (k + n) deleted
      → undo_at k (added_run head n k ++ changed) deleted ≡ undo_at (k + n) changed deleted
  unfolding added_run
  undo-added_run zero k changed deleted l h = let e : k + 0 ≡ k = omega arith in rw e
  undo-added_run (suc n) k changed deleted l h =
      let (y, at, is) = drop-cons k current (omega arith) in
      let e : k + suc n ≡ k + 1 + n = omega arith in
      let later = DeletedFrom-le (k + 1) (k + suc n) deleted (omega arith) h in
      undo_later k (drop k current) _ deleted later
      ∙ ap (λ ys. undo_block k ys (added_run head (suc n) k ++ changed) deleted) is
      ∙ undo_block_changed k y (drop (k + 1) current) added none
          (added_run head n (k + 1) ++ changed) deleted
      ∙ rw e (undo-added_run n (k + 1) changed deleted (omega arith) (rw e at h))

  pub undo-modified_run :
      (n h k : ℕ) (changed : List GitChangedBlock) (deleted : List GitDeletedBlocks)
      → h + n ≤ length head
      → k + n ≤ length current
      → DeletedFrom (k + n) deleted
      → undo_at k (modified_run head n h k ++ changed) deleted
        ≡ slice h (h + n) head ++ undo_at (k + n) changed deleted
  unfolding modified_run
  undo-modified_run zero h k changed deleted l r f =
      let e : k + 0 ≡ k = omega arith in
      let none_left : h + 0 - h ≡ 0 = omega arith in rw (e, none_left)
  undo-modified_run (suc n) h k changed deleted l r f =
      let (y, at, is) = drop-cons k current (omega arith) in
      let (x, at_x, is_x) = drop-cons h head (omega arith) in
      let e : k + suc n ≡ k + 1 + n = omega arith in
      let e' : h + suc n - h ≡ suc (h + 1 + n - (h + 1)) = omega arith in
      let later = DeletedFrom-le (k + 1) (k + suc n) deleted (omega arith) f in
      let cs = modified_run head n (h + 1) (k + 1) ++ changed in
      let piece : slice h (h + suc n) head ≡ x ∷ slice (h + 1) (h + 1 + n) head = rw (is_x, e') in
      undo_later k (drop k current) _ deleted later
      ∙ ap (λ ys. undo_block k ys (modified_run head (suc n) h k ++ changed) deleted) is
      ∙ undo_block_changed k y (drop (k + 1) current) modified (get_elem? head h) cs deleted
      ∙ ap (λ (o : Option Text). block_list o ++ undo_at (k + 1) cs deleted) at_x
      ∙ ap (λ zs. x ∷ zs)
          (undo-modified_run n (h + 1) (k + 1) changed deleted (omega arith) (omega arith)
            (rw e at f))
      ∙ (rw (piece, e))

pub ChangedFrom-le :
    (k k' : ℕ) (changed : List GitChangedBlock)
    → k ≤ k'
    → ChangedFrom k' changed
    → ChangedFrom k changed
ChangedFrom-le k k' [] l h = tt
ChangedFrom-le k k' (c ∷ changed) l h = omega arith

pub undo_block_nil :
    (k : ℕ) (changed : List GitChangedBlock) (deleted : List GitDeletedBlocks)
    → undo_block k [] changed deleted ≡ []
unfolding undo_block
undo_block_nil k changed deleted = refl

pub undo-no_diff : (k : ℕ) (ys : List Text) → undo k ys [] [] ≡ ys
unfolding undo
undo-no_diff k [] = refl
undo-no_diff k (y ∷ ys) = ap (λ zs. y ∷ zs) (undo-no_diff (k + 1) ys)
