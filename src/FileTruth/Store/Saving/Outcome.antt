-- ===== src/FileTruth/Store/Saving/Outcome.antt =====
-- The outcome of a save tells what the store did.
use noto.Common.{
  Option, none, some, is_some, ◌||◌, List, [], Bool, ℕ, refl, nat_eq, bool_eq, list_eq, Text,
}
use noto.Serialize.{Serialized}
use mathlib.Core.Option.{Option, none, some}
use noto.FileTruth.{
  external_conflict, failure, FileFingerprint, AcceptedFileIdentity, accepted_save_outcome,
  stale_editor_revision,
}
use noto.FileTruth.Platform.{
  conflicted, Attempt, Replacement, Problem, done, Platform, Journal, replaced,
}
use noto.FileTruth.Store.{Cell, EditCandidate}
use noto.FileTruth.Store.Steps.{serialize_candidate}
use noto.FileTruth.Store.Saving.Carried.{
  cleanup_failure-Carries, Carries-Reports, cleanup_then-Carries,
}
use noto.FileTruth.Store.Saving.Settled.{
  option-Reports, catch-Reports, Reported, attempt-Keeps, if-Reports, here-Reports, bind-Reports,
  Keeps, Reports, in_world-Keeps, pure-Keeps, bind-Keeps, change-Keeps, hold-Keeps, reach-Keeps,
  if-Keeps,
}
use noto.FileTruth.Store.Saving.{
  save_accepted, save, save_locked, save_open, save_serialized, accepted_of, is_stale,
  after_publish, report, replace_file, handle_problem, close_temp, try_save, Accepted, prepare,
  publish, verify, accept_saved, saved_outcome, commit,
}
use noto.FileTruth.Store.Saving.Told.{
  finish-Reports, conflict-Reports, fail_with-Reports, fail_outcome-Reports, with_lock-Reports,
  commit-Reports, restart-Keeps,
}
use noto.FileTruth.Store.Saving.Kept.{
  cleanup_failure-Keeps, existing-Keeps, load_journal-Keeps, then-Keeps, persist_stage-Keeps,
  cleanup_then-Keeps,
}

module _ {W : Type 0} (p : Platform W) (attempt_id : Text) where
  module _ (a : Accepted) (out : Serialized) (mode : ℕ) where
    prepare-Keeps : (journal : Journal) → Keeps (prepare p attempt_id a out mode journal)
    unfolding prepare
    prepare-Keeps journal =
        then-Keeps p
          (then-Keeps p
            (then-Keeps p
              (then-Keeps p
                (then-Keeps p
                  (then-Keeps p
                    (then-Keeps p
                      (then-Keeps p
                        (then-Keeps p
                          (then-Keeps p
                            (then-Keeps p
                              (then-Keeps p
                                (then-Keeps p
                                  (then-Keeps p
                                    (change-Keeps _ (λ s. (refl, refl, refl, refl, refl)))
                                    (in_world-Keeps _))
                                  (in_world-Keeps _))
                                (persist_stage-Keeps p journal _))
                              (in_world-Keeps _))
                            (hold-Keeps _))
                          (in_world-Keeps _))
                        (persist_stage-Keeps p journal _))
                      (in_world-Keeps _))
                    (persist_stage-Keeps p journal _))
                  (in_world-Keeps _))
                (persist_stage-Keeps p journal _))
              (in_world-Keeps _))
            (hold-Keeps _))
          (persist_stage-Keeps p journal _)

    publish-Keeps : (recreating : Bool) → Keeps (publish p attempt_id a out mode recreating)
    unfolding publish
    publish-Keeps recreating = if-Keeps recreating _ _ (in_world-Keeps _) (in_world-Keeps _)

    verify-Keeps : (journal : Journal) → Keeps (verify p attempt_id a out mode journal)
    unfolding verify
    verify-Keeps journal =
        bind-Keeps _ _
          (then-Keeps p
            (then-Keeps p (then-Keeps p (persist_stage-Keeps p journal _) (in_world-Keeps _))
              (in_world-Keeps _))
            (in_world-Keeps _))
          (λ identity.
            then-Keeps p
              (then-Keeps p (persist_stage-Keeps p journal _) (persist_stage-Keeps p journal _))
              (pure-Keeps identity))

    saved-Reports :
        (journal : Journal) (identity : AcceptedFileIdentity)
        → Reports (commit p attempt_id a out mode journal identity)
    unfolding commit accept_saved saved_outcome accepted_save_outcome
    saved-Reports journal identity =
        commit-Reports p attempt_id _ _ _
          (λ s. (refl, refl, refl, refl, (out.document, refl, refl, refl)))

    after_publish-Reports :
        (recreating : Bool) (journal : Journal) (replacement : Replacement)
        → Reports (after_publish p attempt_id a out mode recreating journal replacement)
    unfolding after_publish accepted_save_outcome
    after_publish-Reports recreating journal replaced =
        bind-Reports _ _ (verify-Keeps journal) (λ identity. saved-Reports journal identity)
    after_publish-Reports recreating journal (conflicted current) =
        bind-Reports _ _ (restart-Keeps p attempt_id recreating) (λ x.
          conflict-Reports p attempt_id _ _ _ _ (λ first.
            Carries-Reports (external_conflict first) _ refl (cleanup_then-Carries p _ journal)
              (cleanup_then-Keeps p _ journal)))

    replace_file-Reports :
        (current : Option FileFingerprint) → Reports (replace_file p attempt_id a out mode current)
    unfolding replace_file accepted_save_outcome
    replace_file-Reports current = here-Reports _ (λ c.
        if-Reports _ _ _
          (conflict-Reports p attempt_id _ _ _ _
            (λ first. finish-Reports p attempt_id (external_conflict first) refl))
          (bind-Reports _ _ (then-Keeps p (prepare-Keeps _) (publish-Keeps _))
            (λ replacement. after_publish-Reports _ _ replacement)))

    try_save-Reports : Reports (try_save p attempt_id a out mode)
    unfolding try_save
    try_save-Reports =
        bind-Reports _ _
          (then-Keeps p (then-Keeps p (reach-Keeps _) (hold-Keeps _)) (in_world-Keeps _))
          (λ current. replace_file-Reports current)

    report-Reports :
        (e : Problem) (close_failed : Bool) (loaded : Attempt (Option Journal))
        (residue : List Text)
        → Reports (report p attempt_id a out mode e close_failed loaded residue)
    unfolding report accepted_save_outcome
    report-Reports e close_failed loaded residue = here-Reports _ (λ c.
        bind-Reports _ _ (change-Keeps _ (λ s. (refl, refl, refl, refl, refl))) (λ x.
          fail_with-Reports p attempt_id _ _ _ _ _ (λ first.
            if-Reports _ _ _
              (Carries-Reports (failure first) _ refl (cleanup_failure-Carries p _ residue)
                (cleanup_failure-Keeps p _ residue))
              (finish-Reports p attempt_id (failure first) refl))))

    close_temp-Keeps : (handle : Option Text) → Keeps (close_temp p attempt_id a out mode handle)
    close_temp-Keeps none = pure-Keeps (done tt)
    close_temp-Keeps (some handle) = attempt-Keeps _ (in_world-Keeps _)

    handle_problem-Reports : (e : Problem) → Reports (handle_problem p attempt_id a out mode e)
    unfolding handle_problem
    handle_problem-Reports e = here-Reports _ (λ c.
        bind-Reports _ _ (close_temp-Keeps c.temp_handle) (λ closed.
          bind-Reports _ _ (attempt-Keeps _ (load_journal-Keeps p _)) (λ loaded.
            bind-Reports _ _ (existing-Keeps p _) (λ residue. report-Reports e _ loaded residue))))

    save_serialized-Reports : Reports (save_serialized p attempt_id a out mode)
    unfolding save_serialized
    save_serialized-Reports = catch-Reports _ _ try_save-Reports (λ e. handle_problem-Reports e)

  save_open-Reports :
      (a : Accepted) (candidate : EditCandidate) → Reports (save_open p attempt_id a candidate)
  unfolding save_open accepted_save_outcome
  save_open-Reports a candidate = here-Reports _ (λ c.
      if-Reports (is_some c.store.recovery || c.store.recovery_blocked) _ _
        (bind-Reports _ _ (existing-Keeps p _)
          (λ residue. fail_outcome-Reports p attempt_id _ _ _ residue))
        (if-Reports (is_stale c.store a candidate) _ _
          (finish-Reports p attempt_id (stale_editor_revision _) refl)
          (option-Reports (serialize_candidate p a.document candidate.transaction)
            (fail_outcome-Reports p attempt_id _ _ _ [])
            (λ out. save_serialized-Reports a out c.store.accepted_mode))))

  save_accepted-Reports :
      (candidate : EditCandidate) (a : Option Accepted)
      → Reports (save_accepted p attempt_id candidate a)
  unfolding save_accepted
  save_accepted-Reports candidate none = fail_outcome-Reports p attempt_id _ _ _ []
  save_accepted-Reports candidate (some a) = save_open-Reports a candidate

  save_locked-Reports : (candidate : EditCandidate) → Reports (save_locked p attempt_id candidate)
  unfolding save_locked
  save_locked-Reports candidate =
      here-Reports _ (λ c. save_accepted-Reports candidate (accepted_of c.store))

  save-Reports : (candidate : EditCandidate) → Reports (save p attempt_id candidate)
  unfolding save
  save-Reports candidate = here-Reports _ (λ c.
      if-Reports c.store.transaction_active _ _ (fail_outcome-Reports p attempt_id _ _ _ [])
        (with_lock-Reports p attempt_id _ (save_locked-Reports candidate)))

  -- Whatever the platform answers, and wherever it fails, the outcome of a save tells what became of
  -- the store. If it says that the file was saved, even where the cleanup failed after it, the store
  -- holds the document that the outcome sends, one editor revision further, with the fingerprint and
  -- the revision that the new save token names. Otherwise the store keeps the document, the path, the
  -- fingerprint, the mode and the editor revision that the editor's work is based on.
  pub save-Reported :
      (candidate : EditCandidate) (c : Cell W)
      → Reported c.store (save p attempt_id candidate c).0 (save p attempt_id candidate c).1.store
  save-Reported candidate c = (save-Reports candidate).reported c
