-- ===== src/FileTruth/Store/Copying/Apart.antt =====
-- A copy is made apart from the editor's work.
use noto.Common.{ℕ, true, Option, none, some, List, ◌==◌, nat_eq, bool_eq, list_eq, Text}
use noto.Contracts.{Document}
use noto.Serialize.{Serialized}
use noto.FileTruth.{Stage, FailureStatus, SaveOutcome}
use noto.FileTruth.Platform.{Journal, done, Problem, Platform}
use noto.FileTruth.Store.{EditCandidate, Cell, Step, ◌>>=◌, attempt}
use noto.FileTruth.Store.Steps.{fail_outcome, serialize_candidate}
use noto.FileTruth.Store.Saving.{with_lock}
use noto.FileTruth.Store.Saving.Settled.{
  catch-Keeps, SameBase, Keeps, in_world-Keeps, pure-Keeps, bind-Keeps, attempt-Keeps, hold-Keeps,
  here-Keeps, if-Keeps,
}
use noto.FileTruth.Store.Saving.Kept.{then-Keeps, existing-Keeps, fail_with-Keeps, finish-Keeps}
use noto.FileTruth.Store.Copying.{
  original_of, try_copy, close_copy, handle_copy_problem, copy_serialized, copy_open, copy_original,
  save_copy_locked, save_copy,
}

module _ {W : Type 0} (p : Platform W) (attempt_id : Text) where
  fail_outcome-Keeps :
      (status : FailureStatus) (stage : Stage) (recovery : Option Journal) (residue : List Text)
      → Keeps (fail_outcome p status attempt_id stage recovery residue)
  fail_outcome-Keeps status stage recovery residue =
      bind-Keeps _ _ (fail_with-Keeps p status attempt_id stage recovery residue)
        (λ first. pure-Keeps _)

  module _ (target : Text) (out : Serialized) (mode : ℕ) where
    try_copy-Keeps : Keeps (try_copy p attempt_id target out mode)
    unfolding try_copy
    try_copy-Keeps =
        then-Keeps p
          (then-Keeps p
            (then-Keeps p
              (then-Keeps p
                (then-Keeps p
                  (then-Keeps p
                    (then-Keeps p
                      (then-Keeps p (then-Keeps p (hold-Keeps _) (in_world-Keeps _)) (hold-Keeps _))
                      (in_world-Keeps _))
                    (in_world-Keeps _))
                  (in_world-Keeps _))
                (in_world-Keeps _))
              (hold-Keeps _))
            (in_world-Keeps _))
          (finish-Keeps p _)

    close_copy-Keeps :
        (handle : Option Text) → Keeps (close_copy p attempt_id target out mode handle)
    close_copy-Keeps none = pure-Keeps (done tt)
    close_copy-Keeps (some handle) = attempt-Keeps _ (in_world-Keeps _)

    handle_copy_problem-Keeps :
        (e : Problem) → Keeps (handle_copy_problem p attempt_id target out mode e)
    unfolding handle_copy_problem
    handle_copy_problem-Keeps e = here-Keeps _ (λ c.
        then-Keeps p
          (then-Keeps p (close_copy-Keeps c.temp_handle) (attempt-Keeps _ (in_world-Keeps _)))
          (bind-Keeps _ _ (existing-Keeps p _) (λ residue. fail_outcome-Keeps _ _ _ residue)))

    copy_serialized-Keeps : Keeps (copy_serialized p attempt_id target out mode)
    unfolding copy_serialized
    copy_serialized-Keeps = catch-Keeps _ _ try_copy-Keeps (λ e. handle_copy_problem-Keeps e)

  written-Keeps :
      (o : Option Serialized) {m : Step W SaveOutcome} {f : Serialized → Step W SaveOutcome}
      → Keeps m
      → ((x : Serialized) → Keeps (f x))
      → Keeps (elim o [ none ↦ m | some x ↦ f x ])
  written-Keeps none k l = k
  written-Keeps (some x) k l = l x

  copy_open-Keeps :
      (candidate : EditCandidate) (destination : Text) (d : Document) (original : Text)
      → Keeps (copy_open p attempt_id candidate destination d original)
  unfolding copy_open
  copy_open-Keeps candidate destination d original = here-Keeps _ (λ c.
      if-Keeps (p.resolve destination == p.resolve original) _ _ (fail_outcome-Keeps _ _ _ _) (
        written-Keeps (serialize_candidate p d candidate.transaction) (fail_outcome-Keeps _ _ _ _)
          (λ out. copy_serialized-Keeps (p.resolve destination) out c.store.accepted_mode)))

  copy_original-Keeps :
      (candidate : EditCandidate) (destination : Text) (o : Option (Document × Text))
      → Keeps (copy_original p attempt_id candidate destination o)
  unfolding copy_original
  copy_original-Keeps candidate destination none = fail_outcome-Keeps _ _ _ _
  copy_original-Keeps candidate destination (some (d, original)) =
      copy_open-Keeps candidate destination d original

  save_copy_locked-Keeps :
      (candidate : EditCandidate) (destination : Text)
      → Keeps (save_copy_locked p attempt_id candidate destination)
  unfolding save_copy_locked
  save_copy_locked-Keeps candidate destination =
      here-Keeps _ (λ c. copy_original-Keeps candidate destination (original_of c.store))

  with_lock-Keeps : (m : Step W SaveOutcome) → Keeps m → Keeps (with_lock p attempt_id m)
  unfolding with_lock ◌>>=◌ attempt
  with_lock-Keeps m k = record {
    kept = λ c. k.kept (record c { store = record c.store { transaction_active = true } });
  }

  save_copy-Keeps :
      (candidate : EditCandidate) (destination : Text)
      → Keeps (save_copy p attempt_id candidate destination)
  unfolding save_copy
  save_copy-Keeps candidate destination = here-Keeps _ (λ c.
      if-Keeps c.store.transaction_active _ _ (fail_outcome-Keeps _ _ _ _)
        (with_lock-Keeps _ (save_copy_locked-Keeps candidate destination)))

  -- Saving a copy, on every path and whatever fails on it, leaves the document, the path, the
  -- fingerprint, the mode and the editor revision of the store as they were.
  pub save_copy-SameBase :
      (candidate : EditCandidate) (destination : Text) (c : Cell W)
      → SameBase c.store (save_copy p attempt_id candidate destination c).1.store
  save_copy-SameBase candidate destination c = (save_copy-Keeps candidate destination).kept c
