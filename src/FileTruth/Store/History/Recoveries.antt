-- ===== src/FileTruth/Store/History/Recoveries.antt =====
-- A recovery leaves a store consistent.
use noto.Common.{
  ℕ, ◌≡◌, refl, Bool, true, false, not, ◌&&◌, Option, none, some, List, is_some, nat_eq, bool_eq,
  list_eq, Text,
}
use noto.Contracts.{Document}
use noto.Document.{ParseResult, parsed, invalid_utf8, parse_document}
use noto.Document.Named.{parse_document-IsRevision}
use noto.FileTruth.{PrimaryOutcome, Stage, FileFingerprint, AcceptedFileIdentity}
use noto.FileTruth.Platform.{
  Platform, Problem, done, threw, Attempt, Journal, CapturedFile, Replacement, replaced, conflicted,
  same_fingerprint,
}
use noto.FileTruth.Store.{Cell, Step}
use noto.FileTruth.Store.Triples.{
  Stays, bind-Triple, then-Triple, catch-Triple, here-Triple, attempt-Stays, if-Triple,
}
use noto.FileTruth.Store.Quiet.{existing-Quiet, load_journal-Quiet}
use noto.FileTruth.Store.History.{Owns}
use noto.FileTruth.Store.Recovering.{
  is_replaced, is_verified, is_journal_complete, is_replacement_complete, is_not_found, is_mismatch,
  found, is_published, rethrow, refuse_recovery, conflict_against, conflict_now, mark,
  commit_recovered, accept_recovered, after_readback, sync_replaced, complete_replacement,
  or_missing, capture_now, drop_temp, closing, write_replay, publish_replay, after_removal,
  after_replay, reconcile, recover_document, recover_parsed, is_candidate, recover_journal,
  try_recover, handle_recovery_problem, recover_locked, recover,
}
use noto.FileTruth.Store.History.Steps.{
  Sound, change-Sound, Quiet-Sound, world-Sound, pure-Sound, hold-Sound, finish-Sound,
  fail_outcome-Sound, with_lock-Sound, watched-Sound, conflict-Sound, persist_journal-Sound,
  cleanup_failure-Sound, cleanup_then-Sound,
}

module _ {W : Type 0} (p : Platform W) (attempt_id : Text) (id : Text) where
  abbrev Locked : Cell W → Type 0
  Locked = Sound p.engine.host id true

  rethrow-Locked : {A : Type 0} (e : Problem) → Stays Locked (rethrow p attempt_id {A = A} e)
  rethrow-Locked e = record { holds = λ c h. h }

  refuse_recovery-Locked : (journal : Journal) → Stays Locked (refuse_recovery p attempt_id journal)
  unfolding refuse_recovery
  refuse_recovery-Locked journal =
      bind-Triple _ _ (Quiet-Sound (existing-Quiet p _)) (λ residue. fail_outcome-Sound p _ _ _ _ _)

  conflict_against-Locked :
      (accepted : Option FileFingerprint) (stage : Stage) (current : Option FileFingerprint)
      → Stays Locked (conflict_against p attempt_id accepted stage current)
  unfolding conflict_against
  conflict_against-Locked none stage current = rethrow-Locked _
  conflict_against-Locked (some accepted) stage current = conflict-Sound p _ _ _ _

  conflict_now-Locked :
      (stage : Stage) (current : Option FileFingerprint)
      → Stays Locked (conflict_now p attempt_id stage current)
  unfolding conflict_now
  conflict_now-Locked stage current =
      here-Triple _ (λ c. conflict_against-Locked c.store.accepted_fingerprint stage current)

  mark-Locked :
      (stage : Stage) (reached : Stage → Bool) (journal : Journal)
      → Stays Locked (mark p attempt_id stage reached journal)
  unfolding mark
  mark-Locked stage reached journal =
      if-Triple (reached journal.published.stage) _ _ (pure-Sound _)
        (then-Triple (persist_journal-Sound p _) (pure-Sound _))

  sync_replaced-Locked : (journal : Journal) → Stays Locked (sync_replaced p attempt_id journal)
  unfolding sync_replaced
  sync_replaced-Locked journal =
      if-Triple (is_replacement_complete journal.published.stage) _ _ (world-Sound _) (pure-Sound _)

  or_missing-Locked : (file : Attempt CapturedFile) → Stays Locked (or_missing p attempt_id file)
  unfolding or_missing
  or_missing-Locked (done file) = pure-Sound _
  or_missing-Locked (threw e) =
      if-Triple (is_not_found e.reason) _ _ (pure-Sound none) (rethrow-Locked e)

  capture_now-Locked : (journal : Journal) → Stays Locked (capture_now p attempt_id journal)
  unfolding capture_now
  capture_now-Locked journal =
      bind-Triple _ _ (attempt-Stays _ (world-Sound _)) (λ captured. or_missing-Locked captured)

  drop_temp-Locked : (path : Option Text) → Stays Locked (drop_temp p attempt_id path)
  unfolding drop_temp
  drop_temp-Locked none = pure-Sound tt
  drop_temp-Locked (some path) =
      bind-Triple _ _ (world-Sound _) (λ there. if-Triple there _ _ (world-Sound _) (pure-Sound tt))

  written-Locked : (written : Attempt Unit) → Stays Locked (λ c. (written, c))
  written-Locked (done x) = record { holds = λ c h. h }
  written-Locked (threw e) = record { holds = λ c h. h }

  closing-Locked :
      (path : Text) (m : Step W Unit) → Stays Locked m → Stays Locked (closing p attempt_id path m)
  unfolding closing
  closing-Locked path m k =
      bind-Triple _ _ (attempt-Stays m k)
        (λ written. then-Triple (world-Sound _) (written-Locked written))

  write_replay-Locked :
      (journal : Journal) (bytes : List ℕ) → Stays Locked (write_replay p attempt_id journal bytes)
  unfolding write_replay
  write_replay-Locked journal bytes =
      then-Triple
        (then-Triple (then-Triple (drop_temp-Locked journal.published.temp_path) (hold-Sound _))
          (world-Sound _))
        (closing-Locked _ _
          (then-Triple (then-Triple (world-Sound _) (world-Sound _)) (world-Sound _)))

  publish_replay-Locked :
      (journal : Journal) (recreating : Bool)
      → Stays Locked (publish_replay p attempt_id journal recreating)
  unfolding publish_replay
  publish_replay-Locked journal recreating =
      if-Triple recreating _ _ (world-Sound _) (world-Sound _)

  after_removal-Locked :
      (journal : Journal) (first : PrimaryOutcome) (removed : Attempt Unit)
      → Stays Locked (after_removal p attempt_id journal first removed)
  unfolding after_removal
  after_removal-Locked journal first (done x) = then-Triple (hold-Sound _) (finish-Sound p _)
  after_removal-Locked journal first (threw e) =
      bind-Triple _ _ (Quiet-Sound (existing-Quiet p _)) (λ residue. cleanup_failure-Sound p _ _)

  module _ (d : Document) (own : Owns p.engine.host id (some d)) where
    commit_recovered-Locked :
        (accepted : AcceptedFileIdentity) (journal : Journal)
        → Stays Locked (commit_recovered p attempt_id accepted d journal)
    unfolding commit_recovered accept_recovered
    commit_recovered-Locked accepted journal = here-Triple _ (λ c.
        then-Triple (change-Sound _ (λ s (x, y, z, k). (x, y, own, k))) (cleanup_then-Sound p _ _))

    after_readback-Locked :
        (journal : Journal) (read : Attempt AcceptedFileIdentity)
        → Stays Locked (after_readback p attempt_id journal d read)
    unfolding after_readback
    after_readback-Locked journal (threw e) =
        if-Triple (is_mismatch e.reason) _ _ (refuse_recovery-Locked journal) (rethrow-Locked e)
    after_readback-Locked journal (done accepted) =
        bind-Triple _ _ (mark-Locked _ is_verified journal) (λ verified.
          bind-Triple _ _ (mark-Locked _ is_journal_complete verified)
            (λ complete. commit_recovered-Locked accepted complete))

    complete_replacement-Locked :
        (journal : Journal) (bytes : List ℕ)
        → Stays Locked (complete_replacement p attempt_id journal bytes d)
    unfolding complete_replacement
    complete_replacement-Locked journal bytes =
        bind-Triple _ _
          (then-Triple (sync_replaced-Locked journal) (attempt-Stays _ (world-Sound _)))
          (λ read. after_readback-Locked journal read)

    after_replay-Locked :
        (journal : Journal) (bytes : List ℕ) (recreating : Bool) (replacement : Replacement)
        → Stays Locked (after_replay p attempt_id journal bytes d recreating replacement)
    unfolding after_replay
    after_replay-Locked journal bytes recreating replaced =
        then-Triple (persist_journal-Sound p _) (complete_replacement-Locked _ bytes)
    after_replay-Locked journal bytes recreating (conflicted current) =
        then-Triple (watched-Sound p recreating) (
          bind-Triple _ _ (conflict_now-Locked _ current) (λ first.
            bind-Triple _ _ (attempt-Stays _ (world-Sound _))
              (λ removed. after_removal-Locked journal first removed)))

    reconcile-Locked :
        (journal : Journal) (bytes : List ℕ) (now : Option CapturedFile)
        → Stays Locked (reconcile p attempt_id journal bytes d now)
    unfolding reconcile
    reconcile-Locked journal bytes now =
        if-Triple
          (not (journal.recreate && not (is_some (found now)))
            && not (same_fingerprint (some journal.published.accepted_fingerprint) (found now)))
          _ _
          (if-Triple (is_published journal bytes now) _ _
            (then-Triple (persist_journal-Sound p _) (complete_replacement-Locked _ bytes))
            (bind-Triple _ _ (conflict_now-Locked _ _) (λ first. pure-Sound _)))
          (bind-Triple _ _
            (then-Triple (write_replay-Locked journal bytes) (publish_replay-Locked journal _))
            (λ replacement. after_replay-Locked journal bytes _ replacement))

    recover_document-Locked :
        (journal : Journal) (bytes : List ℕ)
        → Stays Locked (recover_document p attempt_id journal bytes d)
    unfolding recover_document
    recover_document-Locked journal bytes =
        if-Triple (is_replaced journal.published.stage) _ _
          (complete_replacement-Locked journal bytes)
          (bind-Triple _ _ (capture_now-Locked journal) (λ now. reconcile-Locked journal bytes now))

  recover_parsed-Locked :
      (journal : Journal) (bytes : List ℕ) (result : ParseResult)
      → parse_document p.engine.host bytes ≡ result
      → Stays Locked (recover_parsed p attempt_id journal bytes result)
  unfolding recover_parsed
  recover_parsed-Locked journal bytes (invalid_utf8 x) is = refuse_recovery-Locked journal
  recover_parsed-Locked journal bytes (parsed d) is = record {
    holds = λ c h.
        (recover_document-Locked (record d { document_id = c.store.document_id })
            (h.sound.0, parse_document-IsRevision p.engine.host bytes d is) journal bytes).holds
          c h;
  }

  recover_journal-Locked :
      (loaded : Option Journal) → Stays Locked (recover_journal p attempt_id loaded)
  unfolding recover_journal
  recover_journal-Locked none = fail_outcome-Sound p _ _ _ _ _
  recover_journal-Locked (some journal) =
      bind-Triple _ _
        (then-Triple (change-Sound _ (λ s (x, y, z, k). (x, y, z, refl))) (world-Sound _))
        (λ bytes.
          if-Triple (is_candidate p attempt_id journal bytes) _ _
            (recover_parsed-Locked journal bytes _ refl) (refuse_recovery-Locked journal))

  try_recover-Locked : Stays Locked (try_recover p attempt_id)
  unfolding try_recover
  try_recover-Locked = here-Triple _ (λ c.
      bind-Triple _ _ (then-Triple (hold-Sound _) (Quiet-Sound (load_journal-Quiet p _)))
        (λ loaded. recover_journal-Locked loaded))

  handle_recovery_problem-Locked :
      (e : Problem) → Stays Locked (handle_recovery_problem p attempt_id e)
  unfolding handle_recovery_problem
  handle_recovery_problem-Locked e = here-Triple _ (λ c.
      bind-Triple _ _ (Quiet-Sound (existing-Quiet p _))
        (λ residue. fail_outcome-Sound p _ _ _ _ _))

  recover_locked-Locked : Stays Locked (recover_locked p attempt_id)
  unfolding recover_locked
  recover_locked-Locked =
      catch-Triple _ _ try_recover-Locked (λ e. handle_recovery_problem-Locked e)

  pub recover-Sound : Stays (Sound p.engine.host id false) (recover p attempt_id)
  unfolding recover
  recover-Sound = here-Triple _ (λ c.
      if-Triple c.store.transaction_active _ _ (fail_outcome-Sound p _ _ _ _ _)
        (with_lock-Sound p attempt_id recover_locked-Locked))
