-- ===== src/FileTruth/Store/Recovering.antt =====
-- `recover`, `recoverLocked` and `completeRecoveredReplacement` of file-truth-store.ts: the candidate
-- that a save left in its durable payload is published again, or found to be published. The local
-- `replayTemp` is the temporary file of the cell. The locals `journal` and `stage` are needed in the
-- `catch` only while the store has no record, when they are still what they began as.
pub mod Outcome
use noto.Common.{
  ℕ, ◌+◌, Bool, true, false, not, ◌&&◌, Option, none, some, List, [], ◌∷◌, ◌++◌, map, if◌then◌else◌,
  is_some, ◌==◌, nat_eq, bool_eq, list_eq, length, Text, codes,
}
use noto.Contracts.{Document}
use noto.Document.{ParseResult, parsed, invalid_utf8, parse_document, to_wire}
use noto.FileTruth.{
  FileFingerprint, AcceptedFileIdentity, Stage, metadata_applied, precondition_confirmed,
  replacement_complete, replacement_verified, journal_complete, before_temp_write, SaveOutcome,
  primary, PrimaryOutcome, saved, recovery_failed,
}
use noto.FileTruth.Platform.{
  Journal, Attempt, done, threw, Problem, other_reason, Reason, not_found, readback_mismatch,
  Platform, CapturedFile, Replacement, replaced, conflicted, same_fingerprint,
}
use noto.FileTruth.Store.{
  Store, is_saved, Step, pure, ◌>>=◌, ◌>>◌, in_world, change, hold, attempt, catch,
}
use noto.FileTruth.Store.Steps.{
  finish, fail_outcome, conflict, residue_evidence, persist_journal, journal_at, load_journal,
  cleanup_failure, cleanup_then,
}
use noto.FileTruth.Store.Saving.{recovery_stage, start_watcher, with_lock}

-- The original was replaced before the save was interrupted.
unfoldable pub is_replaced : Stage → Bool
is_replaced replacement_complete = true
is_replaced replacement_verified = true
is_replaced journal_complete = true
is_replaced _ = false

unfoldable pub is_verified : Stage → Bool
is_verified replacement_verified = true
is_verified journal_complete = true
is_verified _ = false

unfoldable pub is_journal_complete : Stage → Bool
is_journal_complete journal_complete = true
is_journal_complete _ = false

unfoldable pub is_replacement_complete : Stage → Bool
is_replacement_complete replacement_complete = true
is_replacement_complete _ = false

unfoldable pub is_confirmed : Stage → Bool
is_confirmed precondition_confirmed = true
is_confirmed _ = false

unfoldable pub is_not_found : Reason → Bool
is_not_found not_found = true
is_not_found _ = false

unfoldable pub is_mismatch : Reason → Bool
is_mismatch readback_mismatch = true
is_mismatch _ = false

abbrev pub found : Option CapturedFile → Option FileFingerprint
found none = none
found (some captured) = some captured.identity.fingerprint

-- The candidate is what the file holds now.
unfoldable pub is_published : Journal → List ℕ → Option CapturedFile → Bool
is_published journal bytes none = false
is_published journal bytes (some captured) =
    is_confirmed journal.published.stage
    && (captured.identity.posix_mode == journal.published.posix_mode && captured.bytes == bytes)

abbrev pub payload_of : Option Journal → Option Text
payload_of none = none
payload_of (some journal) = some journal.published.payload_path

abbrev pub temp_of : Option Journal → Option Text
temp_of none = none
temp_of (some journal) = journal.published.temp_path

module _ {W : Type 0} (p : Platform W) (attempt_id : Text) where
  abbrev pub rethrow : {A : Type 0} → Problem → Step W A
  rethrow e c = (threw e, c)

  abbrev pub evidence_of : Journal → List (Option Text)
  evidence_of journal =
      some journal.published.journal_path
      ∷ some journal.published.payload_path
      ∷ journal.published.temp_path
      ∷ []

  -- The record stays, and the failure names what is there.
  unfoldable pub refuse_recovery : Journal → Step W SaveOutcome
  refuse_recovery journal = residue_evidence p (evidence_of journal) >>= λ residue.
      fail_outcome p recovery_failed attempt_id journal.published.stage (some journal) residue

  -- No accepted fingerprint is a case that is not reached: `open` sets it with the path.
  unfoldable pub conflict_against :
      Option FileFingerprint → Stage → Option FileFingerprint → Step W PrimaryOutcome
  conflict_against none stage current =
      rethrow (record { reason = other_reason; point = none; residue_paths = [] })
  conflict_against (some accepted) stage current = conflict p attempt_id stage accepted current

  unfoldable pub conflict_now : Stage → Option FileFingerprint → Step W PrimaryOutcome
  conflict_now stage current c = conflict_against c.store.accepted_fingerprint stage current c

  unfoldable pub mark : Stage → (Stage → Bool) → Journal → Step W Journal
  mark stage reached journal =
      if reached journal.published.stage
      then pure journal
      else persist_journal p (journal_at p journal stage) >> pure (journal_at p journal stage)

  unfoldable pub accept_recovered : AcceptedFileIdentity → Document → Store → Store
  accept_recovered accepted d s = record s {
    document = some d;
    accepted_fingerprint = some accepted.fingerprint;
    accepted_missing = false;
    accepted_mode = accepted.posix_mode;
    editor_revision = s.editor_revision + 1;
    state = is_saved;
  }

  unfoldable pub recovered_outcome :
      Journal → AcceptedFileIdentity → Document → Store → PrimaryOutcome
  recovered_outcome journal accepted d s = saved (record {
    base = record { attempt_id = attempt_id; safe_stage = replacement_verified };
    accepted = accepted;
    save_token = record {
      document_revision_id = d.revision_id;
      editor_revision = s.editor_revision + 1;
      fingerprint = accepted.fingerprint;
    };
    output_sha256 = journal.published.candidate_sha256;
    document = to_wire d;
  })

  unfoldable pub commit_recovered : AcceptedFileIdentity → Document → Journal → Step W SaveOutcome
  unfolding accept_recovered recovered_outcome
  commit_recovered accepted d journal c =
      (change (accept_recovered accepted d)
          >> cleanup_then p (recovered_outcome journal accepted d c.store) journal)
        c

  unfoldable pub after_readback :
      Journal → Document → Attempt AcceptedFileIdentity → Step W SaveOutcome
  after_readback journal d (threw e) =
      if is_mismatch e.reason then refuse_recovery journal else rethrow e
  after_readback journal d (done accepted) =
      mark replacement_verified is_verified journal >>= λ verified.
      mark journal_complete is_journal_complete verified >>= λ complete.
      commit_recovered accepted d complete

  unfoldable pub sync_replaced : Journal → Step W Unit
  sync_replaced journal =
      if is_replacement_complete journal.published.stage
      then in_world (p.sync_directory_of journal.published.original_path)
      else pure tt

  -- `completeRecoveredReplacement`
  unfoldable pub complete_replacement : Journal → List ℕ → Document → Step W SaveOutcome
  complete_replacement journal bytes d =
      sync_replaced journal
      >> attempt (
          in_world
            (p.verify_readback journal.published.original_path bytes journal.published.posix_mode))
      >>= λ read. after_readback journal d read

  unfoldable pub or_missing : Attempt CapturedFile → Step W (Option CapturedFile)
  or_missing (done file) = pure (some file)
  or_missing (threw e) = if is_not_found e.reason then pure none else rethrow e

  unfoldable pub capture_now : Journal → Step W (Option CapturedFile)
  capture_now journal =
      attempt (in_world (p.capture journal.published.original_path)) >>= λ captured.
      or_missing captured

  abbrev pub replay_temp : Journal → Text
  replay_temp journal =
      p.temp_path_for journal.published.original_path (attempt_id ++ codes "-recovery")

  unfoldable pub drop_temp : Option Text → Step W Unit
  drop_temp none = pure tt
  drop_temp (some path) = in_world (p.exists path) >>= λ there.
      if there then in_world (p.remove_without_injection path) else pure tt

  -- `try … finally`: the file is closed whatever comes of the writing, and an error of that counts.
  unfoldable pub closing : Text → Step W Unit → Step W Unit
  closing path m = attempt m >>= λ written. in_world (p.close_handle path) >> (λ c. (written, c))

  unfoldable pub write_replay : Journal → List ℕ → Step W Unit
  write_replay journal bytes =
      let temp = replay_temp journal in
      drop_temp journal.published.temp_path
      >> hold (some temp)
      >> in_world (p.create_exclusive_temp temp)
      >> closing temp (
          in_world (p.write_temp temp bytes)
          >> in_world (p.flush temp)
          >> in_world (p.apply_and_verify_mode temp journal.published.posix_mode))

  unfoldable pub publish_replay : Journal → Bool → Step W Replacement
  publish_replay journal recreating =
      let temp = replay_temp journal in
      let original = journal.published.original_path in
      if recreating
      then in_world (p.publish_if_absent temp original)
      else in_world
          (p.validate_expected_and_replace temp original journal.published.accepted_fingerprint)

  unfoldable pub after_removal : Journal → PrimaryOutcome → Attempt Unit → Step W SaveOutcome
  after_removal journal first (done x) = hold none >> finish p (primary first)
  after_removal journal first (threw e) =
      residue_evidence p (some (replay_temp journal) ∷ evidence_of journal) >>= λ residue.
      cleanup_failure p first residue

  unfoldable pub after_replay :
      Journal → List ℕ → Document → Bool → Replacement → Step W SaveOutcome
  after_replay journal bytes d recreating (conflicted current) =
      change (λ s. if recreating then start_watcher s else s)
      >> (conflict_now metadata_applied current >>= λ first.
          attempt (in_world (p.remove (replay_temp journal))) >>= λ removed.
          after_removal journal first removed)
  after_replay journal bytes d recreating replaced =
      let at_complete = journal_at p journal replacement_complete in
      let completed = record at_complete {
        published = record at_complete.published { temp_path = some (replay_temp journal) };
      } in
      persist_journal p completed >> complete_replacement completed bytes d

  -- With the file as it is now: ours, the candidate itself, or another.
  unfoldable pub reconcile : Journal → List ℕ → Document → Option CapturedFile → Step W SaveOutcome
  reconcile journal bytes d now =
      let recreating = journal.recreate && not (is_some (found now)) in
      if not recreating
        && not (same_fingerprint (some journal.published.accepted_fingerprint) (found now))
      then (if is_published journal bytes now
          then (persist_journal p (journal_at p journal replacement_complete)
              >> complete_replacement (journal_at p journal replacement_complete) bytes d)
          else (conflict_now journal.published.stage (found now) >>= λ first. pure (primary first)))
      else (write_replay journal bytes >> publish_replay journal recreating >>= λ replacement.
          after_replay journal bytes d recreating replacement)

  unfoldable pub recover_document : Journal → List ℕ → Document → Step W SaveOutcome
  recover_document journal bytes d =
      if is_replaced journal.published.stage
      then complete_replacement journal bytes d
      else (capture_now journal >>= λ now. reconcile journal bytes d now)

  unfoldable pub recover_parsed : Journal → List ℕ → ParseResult → Step W SaveOutcome
  recover_parsed journal bytes (invalid_utf8 x) c = refuse_recovery journal c
  recover_parsed journal bytes (parsed d) c =
      recover_document journal bytes (record d { document_id = c.store.document_id }) c

  unfoldable pub is_candidate : Journal → List ℕ → Bool
  is_candidate journal bytes =
      length bytes == journal.published.candidate_byte_length
      && p.engine.host.sha256_bytes bytes == journal.published.candidate_sha256

  unfoldable pub recover_journal : Option Journal → Step W SaveOutcome
  recover_journal none = fail_outcome p recovery_failed attempt_id before_temp_write none []
  recover_journal (some journal) =
      change (λ s. record s { recovery = some journal; recovery_blocked = true })
      >> in_world (p.read_bytes journal.published.payload_path)
      >>= λ bytes.
          if is_candidate journal bytes
          then recover_parsed journal bytes (parse_document p.engine.host bytes)
          else refuse_recovery journal

  -- The body of the `try`.
  unfoldable pub try_recover : Step W SaveOutcome
  try_recover c =
      (hold none >> load_journal p c.store.accepted_path >>= λ loaded. recover_journal loaded) c

  abbrev pub expected_journal_path : Option Text → Option Text
  expected_journal_path none = none
  expected_journal_path (some path) = some (p.journal_path_of path)

  -- The body of the `catch`.
  unfoldable pub handle_recovery_problem : Problem → Step W SaveOutcome
  handle_recovery_problem e c =
      (residue_evidence p (
            expected_journal_path c.store.accepted_path
            ∷ payload_of c.store.recovery
            ∷ temp_of c.store.recovery
            ∷ c.temp_handle
            ∷ map (λ x. some x) e.residue_paths)
          >>= λ residue.
              fail_outcome p recovery_failed attempt_id (recovery_stage c.store.recovery)
                c.store.recovery residue)
        c

  unfoldable pub recover_locked : Step W SaveOutcome
  recover_locked = catch try_recover handle_recovery_problem

  unfoldable pub recover : Step W SaveOutcome
  recover c =
      (if c.store.transaction_active
          then fail_outcome p recovery_failed attempt_id before_temp_write c.store.recovery []
          else with_lock p attempt_id recover_locked)
        c
