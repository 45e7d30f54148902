-- ===== src/FileTruth/Store/Recovering/Outcome.antt =====
-- The outcome of a recovery tells what the store did, as that of a save does.
use noto.Common.{ℕ, refl, Bool, Option, none, some, List, [], nat_eq, bool_eq, list_eq, Text}
use noto.Contracts.{Document}
use noto.Document.{ParseResult, parsed, invalid_utf8, parse_document}
use noto.FileTruth.{
  Stage, FileFingerprint, AcceptedFileIdentity, SaveOutcome, PrimaryOutcome, external_conflict,
  ExternalConflict, accepted_save_outcome,
}
use noto.FileTruth.Platform.{
  Journal, Attempt, done, threw, Problem, Platform, CapturedFile, Replacement, replaced, conflicted,
}
use noto.FileTruth.Store.{Cell, Step, ◌>>=◌}
use noto.FileTruth.Store.Saving.Settled.{
  Reported, Reports, Keeps, SameBase-refl, bind-Reports, here-Reports, if-Reports, catch-Reports,
  bind-Keeps, attempt-Keeps, in_world-Keeps, change-Keeps, hold-Keeps, pure-Keeps, if-Keeps,
}
use noto.FileTruth.Store.Saving.Kept.{
  then-Keeps, existing-Keeps, load_journal-Keeps, persist_journal-Keeps, cleanup_failure-Keeps,
}
use noto.FileTruth.Store.Saving.Carried.{Carries-Reports, cleanup_failure-Carries}
use noto.FileTruth.Store.Saving.Told.{
  finish-Reports, conflict-Reports, pure-Reports, fail_outcome-Reports, with_lock-Reports,
  commit-Reports, restart-Keeps,
}
use noto.FileTruth.Store.Recovering.{
  conflict_against, sync_replaced, or_missing, is_replacement_complete, is_mismatch, is_published,
  rethrow, refuse_recovery, conflict_now, mark, commit_recovered, accept_recovered,
  recovered_outcome, after_readback, complete_replacement, capture_now, is_not_found, drop_temp,
  closing, write_replay, publish_replay, after_removal, after_replay, reconcile, recover_document,
  recover_parsed, recover_journal, try_recover, handle_recovery_problem, recover_locked, recover,
}

module _ {W : Type 0} (p : Platform W) (attempt_id : Text) where
  rethrow-Keeps : {A : Type 0} (e : Problem) → Keeps (rethrow p attempt_id {A = A} e)
  rethrow-Keeps e = record { kept = λ c. SameBase-refl c.store }

  rethrow-Reports : (e : Problem) → Reports (rethrow p attempt_id e)
  rethrow-Reports e = record { reported = λ c. SameBase-refl c.store }

  refuse_recovery-Reports : (journal : Journal) → Reports (refuse_recovery p attempt_id journal)
  unfolding refuse_recovery
  refuse_recovery-Reports journal =
      bind-Reports _ _ (existing-Keeps p _)
        (λ residue. fail_outcome-Reports p attempt_id _ _ _ residue)

  conflict_against-Reports :
      (accepted : Option FileFingerprint) (stage : Stage) (current : Option FileFingerprint)
      (f : PrimaryOutcome → Step W SaveOutcome)
      → ((x : ExternalConflict) → Reports (f (external_conflict x)))
      → Reports (conflict_against p attempt_id accepted stage current >>= f)
  unfolding conflict_against ◌>>=◌
  conflict_against-Reports none stage current f k = record { reported = λ c. SameBase-refl c.store }
  conflict_against-Reports (some accepted) stage current f k =
      conflict-Reports p attempt_id stage accepted current f k

  conflict_now-Reports :
      (stage : Stage) (current : Option FileFingerprint) (f : PrimaryOutcome → Step W SaveOutcome)
      → ((x : ExternalConflict) → Reports (f (external_conflict x)))
      → Reports (conflict_now p attempt_id stage current >>= f)
  unfolding conflict_now ◌>>=◌
  conflict_now-Reports stage current f k =
      here-Reports
        (λ c. conflict_against p attempt_id c.store.accepted_fingerprint stage current >>= f)
        (λ c. conflict_against-Reports c.store.accepted_fingerprint stage current f k)

  mark-Keeps :
      (stage : Stage) (reached : Stage → Bool) (journal : Journal)
      → Keeps (mark p attempt_id stage reached journal)
  unfolding mark
  mark-Keeps stage reached journal =
      if-Keeps (reached journal.published.stage) _ _ (pure-Keeps _)
        (then-Keeps p (persist_journal-Keeps p _) (pure-Keeps _))

  commit_recovered-Reports :
      (accepted : AcceptedFileIdentity) (d : Document) (journal : Journal)
      → Reports (commit_recovered p attempt_id accepted d journal)
  unfolding commit_recovered accept_recovered recovered_outcome accepted_save_outcome
  commit_recovered-Reports accepted d journal =
      commit-Reports p attempt_id _ _ journal (λ s. (refl, refl, refl, refl, (d, refl, refl, refl)))

  after_readback-Reports :
      (journal : Journal) (d : Document) (read : Attempt AcceptedFileIdentity)
      → Reports (after_readback p attempt_id journal d read)
  unfolding after_readback
  after_readback-Reports journal d (threw e) =
      if-Reports (is_mismatch e.reason) _ _ (refuse_recovery-Reports journal) (rethrow-Reports e)
  after_readback-Reports journal d (done accepted) =
      bind-Reports _ _ (mark-Keeps _ _ journal) (λ verified.
        bind-Reports _ _ (mark-Keeps _ _ verified)
          (λ complete. commit_recovered-Reports accepted d complete))

  complete_replacement-Reports :
      (journal : Journal) (bytes : List ℕ) (d : Document)
      → Reports (complete_replacement p attempt_id journal bytes d)
  unfolding complete_replacement sync_replaced
  complete_replacement-Reports journal bytes d =
      bind-Reports _ _
        (then-Keeps p
          (if-Keeps (is_replacement_complete journal.published.stage) _ _ (in_world-Keeps _)
            (pure-Keeps tt))
          (attempt-Keeps _ (in_world-Keeps _)))
        (λ read. after_readback-Reports journal d read)

  drop_temp-Keeps : (path : Option Text) → Keeps (drop_temp p attempt_id path)
  unfolding drop_temp
  drop_temp-Keeps none = pure-Keeps tt
  drop_temp-Keeps (some path) =
      bind-Keeps _ _ (in_world-Keeps _)
        (λ there. if-Keeps there _ _ (in_world-Keeps _) (pure-Keeps tt))

  write_replay-Keeps :
      (journal : Journal) (bytes : List ℕ) → Keeps (write_replay p attempt_id journal bytes)
  unfolding write_replay closing
  write_replay-Keeps journal bytes =
      then-Keeps p
        (then-Keeps p (then-Keeps p (drop_temp-Keeps _) (hold-Keeps _)) (in_world-Keeps _))
        (bind-Keeps _ _
          (attempt-Keeps _
            (then-Keeps p (then-Keeps p (in_world-Keeps _) (in_world-Keeps _)) (in_world-Keeps _)))
          (λ written.
            then-Keeps p (in_world-Keeps _) (record { kept = λ c. SameBase-refl c.store })))

  publish_replay-Keeps :
      (journal : Journal) (recreating : Bool)
      → Keeps (publish_replay p attempt_id journal recreating)
  unfolding publish_replay
  publish_replay-Keeps journal recreating =
      if-Keeps recreating _ _ (in_world-Keeps _) (in_world-Keeps _)

  after_removal-Reports :
      (journal : Journal) (x : ExternalConflict) (removed : Attempt Unit)
      → Reports (after_removal p attempt_id journal (external_conflict x) removed)
  unfolding after_removal accepted_save_outcome
  after_removal-Reports journal x (done u) =
      bind-Reports _ _ (hold-Keeps none)
        (λ v. finish-Reports p attempt_id (external_conflict x) refl)
  after_removal-Reports journal x (threw e) = bind-Reports _ _ (existing-Keeps p _) (λ residue.
      Carries-Reports (external_conflict x) _ refl (cleanup_failure-Carries p _ residue)
        (cleanup_failure-Keeps p _ residue))

  after_replay-Reports :
      (journal : Journal) (bytes : List ℕ) (d : Document) (recreating : Bool) (r : Replacement)
      → Reports (after_replay p attempt_id journal bytes d recreating r)
  unfolding after_replay
  after_replay-Reports journal bytes d recreating (conflicted current) =
      bind-Reports _ _ (restart-Keeps p attempt_id recreating) (λ u.
        conflict_now-Reports _ _ _ (λ x.
          bind-Reports _ _ (attempt-Keeps _ (in_world-Keeps _))
            (λ removed. after_removal-Reports journal x removed)))
  after_replay-Reports journal bytes d recreating replaced =
      bind-Reports _ _ (persist_journal-Keeps p _) (λ u. complete_replacement-Reports _ bytes d)

  reconcile-Reports :
      (journal : Journal) (bytes : List ℕ) (d : Document) (now : Option CapturedFile)
      → Reports (reconcile p attempt_id journal bytes d now)
  unfolding reconcile accepted_save_outcome
  reconcile-Reports journal bytes d now =
      if-Reports _ _ _
        (if-Reports (is_published journal bytes now) _ _
          (bind-Reports _ _ (persist_journal-Keeps p _)
            (λ u. complete_replacement-Reports _ bytes d))
          (conflict_now-Reports _ _ _ (λ x. pure-Reports p attempt_id (external_conflict x) refl)))
        (bind-Reports _ _
          (then-Keeps p (write_replay-Keeps journal bytes) (publish_replay-Keeps journal _))
          (λ r. after_replay-Reports journal bytes d _ r))

  or_missing-Keeps : (captured : Attempt CapturedFile) → Keeps (or_missing p attempt_id captured)
  unfolding or_missing
  or_missing-Keeps (done file) = pure-Keeps (some file)
  or_missing-Keeps (threw e) =
      if-Keeps (is_not_found e.reason) _ _ (pure-Keeps none) (rethrow-Keeps e)

  capture_now-Keeps : (journal : Journal) → Keeps (capture_now p attempt_id journal)
  unfolding capture_now
  capture_now-Keeps journal =
      bind-Keeps _ _ (attempt-Keeps _ (in_world-Keeps _)) (λ captured. or_missing-Keeps captured)

  recover_parsed-Reports :
      (journal : Journal) (bytes : List ℕ) (result : ParseResult)
      → Reports (recover_parsed p attempt_id journal bytes result)
  unfolding recover_parsed recover_document
  recover_parsed-Reports journal bytes (invalid_utf8 x) = refuse_recovery-Reports journal
  recover_parsed-Reports journal bytes (parsed d) = here-Reports _ (λ c.
      if-Reports _ _ _ (complete_replacement-Reports journal bytes _) (
        bind-Reports _ _ (capture_now-Keeps journal)
          (λ now. reconcile-Reports journal bytes _ now)))

  recover_journal-Reports :
      (loaded : Option Journal) → Reports (recover_journal p attempt_id loaded)
  unfolding recover_journal
  recover_journal-Reports none = fail_outcome-Reports p attempt_id _ _ _ _
  recover_journal-Reports (some journal) =
      bind-Reports _ _
        (then-Keeps p (change-Keeps _ (λ s. (refl, refl, refl, refl, refl))) (in_world-Keeps _))
        (λ bytes.
          if-Reports _ _ _
            (recover_parsed-Reports journal bytes (parse_document p.engine.host bytes))
            (refuse_recovery-Reports journal))

  try_recover-Reports : Reports (try_recover p attempt_id)
  unfolding try_recover
  try_recover-Reports = here-Reports _ (λ c.
      bind-Reports _ _ (then-Keeps p (hold-Keeps none) (load_journal-Keeps p _))
        (λ loaded. recover_journal-Reports loaded))

  handle_recovery_problem-Reports : (e : Problem) → Reports (handle_recovery_problem p attempt_id e)
  unfolding handle_recovery_problem
  handle_recovery_problem-Reports e = here-Reports _ (λ c.
      bind-Reports _ _ (existing-Keeps p _)
        (λ residue. fail_outcome-Reports p attempt_id _ _ _ residue))

  recover-Reports : Reports (recover p attempt_id)
  unfolding recover recover_locked
  recover-Reports = here-Reports _ (λ c.
      if-Reports c.store.transaction_active _ _ (fail_outcome-Reports p attempt_id _ _ _ []) (
        with_lock-Reports p attempt_id _
          (catch-Reports _ _ try_recover-Reports (λ e. handle_recovery_problem-Reports e))))

  -- Whatever the platform answers, and wherever it fails, the outcome of a recovery tells what became
  -- of the store. If it says that the file was saved, even where the cleanup failed after it, the
  -- store holds the document that the outcome sends, one editor revision further, with the
  -- fingerprint and the revision that the new save token names. Otherwise the store keeps the
  -- document, the path, the fingerprint, the mode and the editor revision that it had.
  pub recover-Reported :
      (c : Cell W) → Reported c.store (recover p attempt_id c).0 (recover p attempt_id c).1.store
  recover-Reported c = recover-Reports.reported c
