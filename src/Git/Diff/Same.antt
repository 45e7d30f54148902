-- ===== src/Git/Diff/Same.antt =====
-- A note that did not change.
use noto.Common.{
  ℕ, zero, suc, ◌+◌, ◌-◌, ◌≡◌, sym, ap, ◌∙◌, ◌↔◌, false, List, [], arith, ltb, nat_eq, list_eq,
  length, Text,
}
use noto.Git.Align.{run_pairs}
use noto.Git.Align.Self.{alignment_self}
use noto.Git.Similar.{Doubles}
use noto.Git.Diff.{
  GitBlockDiff, modified_run, added_run, deleted_run, positional, settle, diff_from, diff_blocks,
}
use noto.Git.Diff.Undo.{undo, undo-no_diff}
use noto.Git.Diff.Undo.Whole.{undo-diff_blocks}

abbrev pub no_diff : GitBlockDiff
no_diff = record { changed = []; deleted = [] }

module _ (note : List Text) where
  module _ (d : Doubles) (words : Text → List Text) where
    settle_none : (h : ℕ) → settle note d words note h h h h ≡ no_diff
    unfolding settle positional modified_run added_run deleted_run
    settle_none h =
        let none_left : h - h ≡ 0 = omega arith in
        let stop : ltb (h + 0) h ≡ false = ground arith in rw (none_left, stop)

    diff_from_self :
        (n h : ℕ)
        → h + n ≡ length note
        → diff_from note d words note h h (run_pairs h h n) ≡ no_diff
    unfolding diff_from run_pairs
    diff_from_self zero h e = let is : length note ≡ h = omega arith in rw is (settle_none h)
    diff_from_self (suc n) h e = rw (settle_none h, diff_from_self n (h + 1) (omega arith))

-- The diff is empty, with no block changed and none deleted, exactly when the two notes have the
-- same blocks.
pub diff_blocks_none_iff :
    (d : Doubles) (words : Text → List Text) (head current : List Text) (max_cells : ℕ)
    → (diff_blocks d words head current max_cells ≡ no_diff) ↔ (head ≡ current)
unfolding diff_blocks
diff_blocks_none_iff d words head current max_cells = (
  λ h.
      sym (undo-diff_blocks d words head current max_cells)
      ∙ ap (λ (g : GitBlockDiff). undo 0 current g.changed g.deleted) h
      ∙ undo-no_diff 0 current,
  λ h. rw (← h) (
      ap (diff_from head d words head 0 0) (alignment_self head max_cells)
      ∙ diff_from_self head d words (length head) 0 (omega arith)),
)
