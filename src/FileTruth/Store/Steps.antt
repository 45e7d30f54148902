-- ===== src/FileTruth/Store/Steps.antt =====
-- The steps that the operations of the store share: `conflict`, `failure`, `finish`, `persistJournal`,
-- `loadJournalSafe`, `residueEvidence`, `cleanupThen` and `cleanupFailure` of file-truth-store.ts. What
-- JSON.parse and the regular expressions say of a journal is the platform's `decode_journal`.
use noto.Common.{
  ℕ, Bool, true, false, ◌&&◌, Option, none, some, List, [], ◌∷◌, ltb, leb, if◌then◌else◌, ◌==◌,
  nat_eq, bool_eq, list_eq, length, Text,
}
use noto.Common.Maps.{add}
use noto.Contracts.{Document, TransactionWire}
use noto.Revision.Transaction.{expand_transaction}
use noto.Serialize.{Serialized, serialized, refused}
use noto.Serialize.Save.{serialize_document}
use noto.FileTruth.{
  FileFingerprint, RecoveryRecord, Stage, cleanup, SaveOutcome, primary, cleanup_failed,
  PrimaryOutcome, external_conflict, failure, FailureStatus, recovery_needed, OutcomeBase,
}
use noto.FileTruth.Platform.{
  other_reason, Journal, Attempt, done, threw, Platform, at_journal_write,
}
use noto.FileTruth.Store.{
  StoreState, has_conflict, has_failed, needs_recovery, Step, pure, ◌>>=◌, ◌>>◌, in_world, change,
  reach, attempt,
}

-- `publicRecovery`
abbrev pub public_recovery : Option Journal → Option RecoveryRecord
public_recovery none = none
public_recovery (some journal) = some journal.published

abbrev pub recovery_record_id : Option Journal → Option Text
recovery_record_id none = none
recovery_record_id (some journal) = some journal.published.attempt_id

abbrev pub base_of : PrimaryOutcome → OutcomeBase
base_of (noto.FileTruth.saved o) = o.base
base_of (noto.FileTruth.copy_saved o) = o.base
base_of (external_conflict o) = o.base
base_of (noto.FileTruth.stale_editor_revision o) = o.base
base_of (failure o) = o.base

-- The paths that are there, without those named twice.
abbrev pub distinct : List Text → List (Option Text) → List Text
distinct seen [] = seen
distinct seen (none ∷ paths) = distinct seen paths
distinct seen (some [] ∷ paths) = distinct seen paths
distinct seen (some (c ∷ path) ∷ paths) = distinct (add (c ∷ path) seen) paths

abbrev pub failed_state : FailureStatus → StoreState
failed_state recovery_needed = needs_recovery
failed_state _ = has_failed

module _ {W : Type 0} (p : Platform W) where
  -- `finish`
  abbrev pub finish : SaveOutcome → Step W SaveOutcome
  finish outcome = change (λ s. record s { last_outcome = some outcome }) >> pure outcome

  unfoldable pub fail_with :
      FailureStatus → Text → Stage → Option Journal → List Text → Step W PrimaryOutcome
  fail_with status attempt_id stage recovery residue =
      let first = failure (record {
        base = record { attempt_id = attempt_id; safe_stage = stage };
        status = status;
        residue = record {
          recovery = public_recovery recovery;
          recovery_record_id = recovery_record_id recovery;
          residue_paths = residue;
        };
      }) in
      change (λ s. record s { state = failed_state status; last_outcome = some (primary first) })
      >> pure first

  abbrev pub fail_outcome :
      FailureStatus → Text → Stage → Option Journal → List Text → Step W SaveOutcome
  fail_outcome status attempt_id stage recovery residue =
      fail_with status attempt_id stage recovery residue >>= λ first. pure (primary first)

  -- `conflict`, with the accepted fingerprint.
  unfoldable pub conflict :
      Text → Stage → FileFingerprint → Option FileFingerprint → Step W PrimaryOutcome
  conflict attempt_id stage accepted current =
      change (λ s. record s { state = has_conflict })
      >> pure (
          external_conflict (record {
            base = record { attempt_id = attempt_id; safe_stage = stage };
            accepted_fingerprint = accepted;
            current_fingerprint = current;
          }))

  -- A path is evidence if it exists, or if that cannot be told.
  abbrev pub is_evidence : Attempt Bool → Bool
  is_evidence (done there) = there
  is_evidence (threw e) = true

  unfoldable pub existing : List Text → Step W (List Text)
  existing [] = pure []
  existing (path ∷ paths) = attempt (in_world (p.exists path)) >>= λ there.
      existing paths >>= λ rest. pure (if is_evidence there then path ∷ rest else rest)

  abbrev pub residue_evidence : List (Option Text) → Step W (List Text)
  residue_evidence paths = existing (distinct [] paths)

  unfoldable pub persist_journal : Journal → Step W Unit
  persist_journal journal =
      in_world (p.hit at_journal_write)
      >> in_world (p.write_durable_file journal.published.journal_path (p.encode_journal journal))
      >> change (λ s. record s { recovery = some journal; recovery_blocked = true })

  -- `stage = …; await this.persistJournal({ ...recovery, stage })`
  abbrev pub journal_at : Journal → Stage → Journal
  journal_at journal stage = record journal {
    published = record journal.published { stage = stage };
  }

  abbrev pub persist_stage : Journal → Stage → Step W Unit
  persist_stage journal stage = reach stage >> persist_journal (journal_at journal stage)

  -- A journal that can be trusted; anything else that is there is an error.
  unfoldable pub trusted : Text → List ℕ → Attempt (Option Journal)
  trusted path bytes = elim (p.decode_journal bytes) [
    | none ↦ threw (record { reason = other_reason; point = none; residue_paths = [] })
    | some journal ↦
        if journal.published.original_path == path
          && (journal.published.journal_path == p.journal_path_of path
              && (journal.published.payload_path
                    == p.payload_path_of path journal.published.attempt_id
                  && (ltb 0 (length journal.published.attempt_id)
                      && (leb (length journal.published.attempt_id) 128
                          && leb journal.published.posix_mode 0o7777))))
        then done (some journal)
        else threw (record { reason = other_reason; point = none; residue_paths = [] })
  ]

  unfoldable pub load_journal : Option Text → Step W (Option Journal)
  unfolding trusted
  load_journal none = pure none
  load_journal (some path) = in_world (p.exists (p.journal_path_of path)) >>= λ there.
      if there
      then (in_world (p.read_bytes (p.journal_path_of path)) >>= λ bytes.
          λ c. (trusted path bytes, c))
      else pure none

  unfoldable pub cleanup_failure : PrimaryOutcome → List Text → Step W SaveOutcome
  cleanup_failure first residue c =
      (change (λ s. record s { state = has_failed; recovery_blocked = true })
          >> finish (
              cleanup_failed
                (record { attempt_id = (base_of first).attempt_id; safe_stage = cleanup }) first
                (record {
                  recovery = public_recovery c.store.recovery;
                  recovery_record_id = recovery_record_id c.store.recovery;
                  residue_paths = residue;
                })))
        c

  abbrev pub remove_if : Option Text → Step W Unit
  remove_if none = pure tt
  remove_if (some path) = in_world (p.remove path)

  -- The rest of `cleanupThen`, by what became of the removals.
  unfoldable pub after_cleanup : PrimaryOutcome → Journal → Attempt Unit → Step W SaveOutcome
  unfolding cleanup_failure
  after_cleanup first journal (done x) =
      change (λ s. record s { recovery = none; recovery_blocked = false }) >> finish (primary first)
  after_cleanup first journal (threw e) =
      residue_evidence (
        some journal.published.journal_path
        ∷ some journal.published.payload_path
        ∷ journal.published.temp_path
        ∷ [])
      >>= λ residue. cleanup_failure first residue

  unfoldable pub cleanup_then : PrimaryOutcome → Journal → Step W SaveOutcome
  unfolding after_cleanup
  cleanup_then first journal =
      attempt (
        remove_if journal.published.temp_path
        >> in_world (p.remove journal.published.payload_path)
        >> in_world (p.remove journal.published.journal_path))
      >>= λ cleaned. after_cleanup first journal cleaned

  -- `serializeCandidate`
  unfoldable pub serialize_candidate : Document → TransactionWire → Option Serialized
  serialize_candidate d wire = elim (expand_transaction wire d) [
    | none ↦ none
    | some transaction ↦ (elim (serialize_document p.engine d transaction) [
      | refused code bytes ↦ none
      | serialized s ↦ some s
    ])
  ]
