-- ===== src/FileTruth/Store/Opening.antt =====
-- `open`, `busy` and `adoptPath` of file-truth-store.ts. What a failed save has left behind is looked for
-- when the file is opened, and stops every later save until it is recovered.
pub mod Answers
use noto.Common.{
  Bool, true, false, not, ◌||◌, Option, none, some, List, [], ◌∷◌, ◌++◌, map, ltb, if◌then◌else◌,
  is_some, ◌==◌, nat_eq, bool_eq, list_eq, length, Text,
}
use noto.Contracts.{Document, DocumentWire}
use noto.Document.{ParseResult, parsed, invalid_utf8, parse_document, to_wire}
use noto.FileTruth.{
  AcceptedFileIdentity, RecoveryRecord, SaveToken, before_temp_write, candidate_durable, cleanup,
  PrimaryOutcome, recovery_failed,
}
use noto.FileTruth.Platform.{Journal, Attempt, done, threw, Platform, CapturedFile, other_reason}
use noto.FileTruth.Store.{
  StoreState, is_closed, is_opened, has_failed, needs_recovery, Store, Step, pure, ◌>>=◌, ◌>>◌,
  in_world, change, attempt,
}
use noto.FileTruth.Store.Steps.{public_recovery, fail_with, residue_evidence, load_journal}
use noto.FileTruth.Store.Saving.{start_watcher}
use noto.FileTruth.Store.Recovering.{is_candidate, evidence_of, rethrow}

-- `FileTruthOpenReplyV1`
pub record OpenReply : Type 0 where
  pub path : Text
  pub document : DocumentWire
  pub save_token : SaveToken
  pub recovery : Option RecoveryRecord
  pub initial_outcome : Option PrimaryOutcome

unfoldable pub is_busy : Store → Bool
is_busy s = s.transaction_active || (is_some s.recovery || s.recovery_blocked)

unfoldable pub adopt_path : Text → Store → Bool × Store
adopt_path next s =
    if not (is_some s.accepted_path) || is_busy s
    then (false, s)
    else (true, start_watcher (record s { accepted_path = some next }))

unfoldable pub closed : Store → Store
closed s = record s {
  document = none;
  accepted_path = none;
  accepted_fingerprint = none;
  accepted_missing = false;
  accepted_mode = 0;
  editor_revision = 0;
  recovery = none;
  recovery_blocked = false;
  last_outcome = none;
  state = is_closed;
}

unfoldable pub opened : AcceptedFileIdentity → Document → Store → Store
opened identity d s = record s {
  document = some (record d { document_id = s.document_id });
  accepted_path = some identity.canonical_path;
  accepted_fingerprint = some identity.fingerprint;
  accepted_missing = false;
  accepted_mode = identity.posix_mode;
}

unfoldable pub state_after : Option PrimaryOutcome → Option Journal → StoreState
state_after (some outcome) journal = has_failed
state_after none (some journal) = needs_recovery
state_after none none = is_opened

-- The temporary files but the one that the journal still needs.
unfoldable pub unprotected : Option Text → List Text → List Text
unprotected kept [] = []
unprotected none (path ∷ paths) = path ∷ unprotected none paths
unprotected (some kept) (path ∷ paths) =
    let rest = unprotected (some kept) paths in if path == kept then rest else path ∷ rest

abbrev pub temp_kept : Option Journal → Option Text
temp_kept none = none
temp_kept (some journal) = journal.published.temp_path

module _ {W : Type 0} (p : Platform W) (attempt_id : Text) where
  abbrev pub block : Store → Store
  block s = record s { recovery_blocked = true }

  -- The journal, or the outcome that there is none that can be trusted.
  unfoldable pub adopt_journal : Attempt (Option Journal) → Step W (Option PrimaryOutcome)
  adopt_journal (done journal) =
      change (λ s. record s { recovery = journal; recovery_blocked = is_some journal }) >> pure none
  adopt_journal (threw e) =
      change (λ s. record s { recovery = none; recovery_blocked = true })
      >> (fail_with p recovery_failed attempt_id before_temp_write none [] >>= λ first.
          pure (some first))

  -- A payload without a journal.
  unfoldable pub check_orphans : Text → Step W (Option PrimaryOutcome)
  check_orphans path = in_world (p.list_recovery_artifacts path) >>= λ orphaned.
      if ltb 0 (length orphaned)
      then (change block
          >> (fail_with p recovery_failed attempt_id candidate_durable none orphaned >>= λ first.
              pure (some first)))
      else pure none

  unfoldable pub project_parsed : ParseResult → Step W Unit
  project_parsed (invalid_utf8 x) c =
      rethrow p attempt_id (record { reason = other_reason; point = none; residue_paths = [] }) c
  project_parsed (parsed d) c =
      change (λ s. record s { document = some (record d { document_id = s.document_id }) }) c

  -- The candidate of the journal is what the editor is to show.
  unfoldable pub try_project : Journal → Step W Unit
  try_project journal = in_world (p.read_bytes journal.published.payload_path) >>= λ bytes.
      if is_candidate p attempt_id journal bytes
      then project_parsed (parse_document p.engine.host bytes)
      else rethrow p attempt_id (record { reason = other_reason; point = none; residue_paths = [] })

  unfoldable pub after_projection : Journal → Attempt Unit → Step W (Option PrimaryOutcome)
  after_projection journal (done x) = pure none
  after_projection journal (threw e) =
      change block
      >> (residue_evidence p (evidence_of p attempt_id journal) >>= λ residue.
          fail_with p recovery_failed attempt_id journal.published.stage (some journal) residue
          >>= λ first. pure (some first))

  unfoldable pub check_journal : Text → Option Journal → Step W (Option PrimaryOutcome)
  check_journal path none = check_orphans path
  check_journal path (some journal) =
      attempt (try_project journal) >>= λ projected. after_projection journal projected

  unfoldable pub check_recovery : Text → Step W (Option PrimaryOutcome)
  check_recovery path c = check_journal path c.store.recovery c

  unfoldable pub cleanup_blocked : List Text → Step W (Option PrimaryOutcome)
  cleanup_blocked candidates c =
      (change block
          >> (residue_evidence p (map (λ x. some x) candidates) >>= λ residue.
              fail_with p recovery_failed attempt_id cleanup c.store.recovery residue >>= λ first.
              pure (some first)))
        c

  unfoldable pub remove_all : List Text → Step W Unit
  remove_all [] = pure tt
  remove_all (path ∷ paths) = in_world (p.remove_without_injection path) >> remove_all paths

  unfoldable pub after_removals : List Text → Attempt Unit → Step W (Option PrimaryOutcome)
  after_removals candidates (done x) = pure none
  after_removals candidates (threw e) = cleanup_blocked candidates

  unfoldable pub internal_temps : Step W (List Text)
  internal_temps = in_world (p.exists p.recovery_root) >>= λ there.
      if there then in_world (p.list_durable_internal_temps p.recovery_root) else pure []

  unfoldable pub remove_temps : List Text → Attempt (List Text) → Step W (Option PrimaryOutcome)
  remove_temps owned (threw e) = cleanup_blocked owned
  remove_temps owned (done internal) = attempt (remove_all (owned ++ internal)) >>= λ removed.
      after_removals (owned ++ internal) removed

  unfoldable pub clean_owned : Attempt (List Text) → Step W (Option PrimaryOutcome)
  clean_owned (threw e) c = cleanup_blocked [] c
  clean_owned (done temps) c =
      (attempt internal_temps >>= λ internal.
      remove_temps (unprotected (temp_kept c.store.recovery) temps) internal)
        c

  -- The temporary files of saves that were cut off.
  unfoldable pub clean_temps : Text → Step W (Option PrimaryOutcome)
  clean_temps path = attempt (in_world (p.list_owned_temps path)) >>= λ temps. clean_owned temps

  -- The next check, unless one before it has failed.
  unfoldable pub unless_failed :
      Option PrimaryOutcome → Step W (Option PrimaryOutcome) → Step W (Option PrimaryOutcome)
  unless_failed (some outcome) next = pure (some outcome)
  unless_failed none next = next

  -- A store without a document is a case that is not reached.
  unfoldable pub reply_with :
      AcceptedFileIdentity → Option PrimaryOutcome → Option Document → Step W OpenReply
  reply_with identity outcome none c =
      rethrow p attempt_id (record { reason = other_reason; point = none; residue_paths = [] }) c
  reply_with identity outcome (some d) c =
      pure
        (record {
          path = identity.canonical_path;
          document = to_wire d;
          save_token = record {
            document_revision_id = d.revision_id;
            editor_revision = c.store.editor_revision;
            fingerprint = identity.fingerprint;
          };
          recovery = public_recovery c.store.recovery;
          initial_outcome = outcome;
        })
        c

  unfoldable pub reply_opened : AcceptedFileIdentity → Option PrimaryOutcome → Step W OpenReply
  reply_opened identity outcome c = reply_with identity outcome c.store.document c

  unfoldable pub open_parsed : CapturedFile → ParseResult → Step W OpenReply
  open_parsed captured (invalid_utf8 x) =
      rethrow p attempt_id (record { reason = other_reason; point = none; residue_paths = [] })
  open_parsed captured (parsed d) =
      let path = captured.identity.canonical_path in
      change (opened captured.identity d) >> attempt (load_journal p (some path)) >>= λ loaded.
      adopt_journal loaded >>= λ first. unless_failed first (check_recovery path) >>= λ second.
      unless_failed second (clean_temps path) >>= λ third.
      change (λ s. start_watcher (record s { state = state_after third s.recovery }))
      >> reply_opened captured.identity third

  unfoldable pub open_file : Text → Step W OpenReply
  open_file path = change closed >> in_world (p.capture path) >>= λ captured.
      open_parsed captured (parse_document p.engine.host captured.bytes)
