-- ===== src/FileTruth/Store/Saving.antt =====
-- `save` and `saveLocked` of file-truth-store.ts: the candidate goes to a durable payload and a
-- temporary file, the journal records each stage, and the file is replaced only while it is the one
-- that was accepted. Pointing the watcher away from the file for the replacement is not modelled.
pub mod Settled
pub mod Kept
pub mod Carried
pub mod Told
pub mod Phases
pub mod Atomic
pub mod Outcome
pub mod Returns
use noto.Common.{
  ℕ, ◌+◌, Bool, true, false, not, ◌&&◌, ◌||◌, Option, none, some, List, [], ◌∷◌, map, if◌then◌else◌,
  is_some, ◌==◌, nat_eq, bool_eq, list_eq, length, Text,
}
use noto.Contracts.{Document, TransactionWire}
use noto.Document.{to_wire}
use noto.Serialize.{Serialized}
use noto.FileTruth.{
  FileFingerprint, AcceptedFileIdentity, Stage, before_temp_write, candidate_durable, temp_written,
  temp_flushed, metadata_applied, precondition_confirmed, replacement_complete,
  replacement_verified, journal_complete, SaveOutcome, primary, PrimaryOutcome, saved,
  stale_editor_revision, write_failed, serialization_failed, recovery_needed, recovery_failed,
}
use noto.FileTruth.Platform.{
  Journal, Attempt, done, threw, Problem, Platform, Replacement, replaced, conflicted, FailurePoint,
  at_payload_write, at_after_replacement_before_journal_completion, at_temp_close, same_fingerprint,
  classify_save_failure,
}
use noto.FileTruth.Store.{
  Store, EditCandidate, is_saved, Step, pure, ◌>>=◌, ◌>>◌, in_world, change, reach, hold, attempt,
  catch,
}
use noto.FileTruth.Store.Steps.{
  finish, fail_with, fail_outcome, conflict, residue_evidence, persist_stage, journal_at,
  load_journal, cleanup_failure, cleanup_then, serialize_candidate,
}

-- The mode and the paths are those of the file that was accepted.
pub record Accepted : Type 0 where
  pub document : Document
  pub path : Text
  pub fingerprint : FileFingerprint

abbrev pub accepted_of : Store → Option Accepted
accepted_of s = elim s.document [
  | none ↦ none
  | some d ↦ elim s.accepted_path [
    | none ↦ none
    | some path ↦ (elim s.accepted_fingerprint [
      | none ↦ none
      | some f ↦ some (record { document = d; path = path; fingerprint = f })
    ])
  ]
]

-- `revisionId` of a transaction
abbrev pub revision_named : TransactionWire → Text
revision_named (noto.Contracts.blocks t) = t.revision_id
revision_named (noto.Contracts.source t) = t.revision_id

-- The snapshot of the editor is not of the revision that was accepted.
unfoldable pub is_stale : Store → Accepted → EditCandidate → Bool
is_stale s a candidate =
    not (candidate.save_token.editor_revision == s.editor_revision)
    || (not (candidate.save_token.document_revision_id == a.document.revision_id)
        || (not (same_fingerprint (some candidate.save_token.fingerprint) (some a.fingerprint))
            || not (revision_named candidate.transaction == a.document.revision_id)))

abbrev pub recovery_residue : Option Journal → List (Option Text)
recovery_residue none = []
recovery_residue (some journal) =
    some journal.published.payload_path ∷ journal.published.temp_path ∷ []

abbrev pub recovery_stage : Option Journal → Stage
recovery_stage none = before_temp_write
recovery_stage (some journal) = journal.published.stage

-- `startWatcher`
abbrev pub start_watcher : Store → Store
start_watcher s = record s { watcher_generation = s.watcher_generation + 1 }

module _ {W : Type 0} (p : Platform W) (attempt_id : Text) where
  module _ (a : Accepted) (out : Serialized) (mode : ℕ) where
    abbrev pub temp_path : Text
    temp_path = p.temp_path_for a.path attempt_id

    -- `recoveryPaths`
    unfoldable pub recovery_paths : Bool → Journal
    recovery_paths recreating = record {
      published = record {
        attempt_id = attempt_id;
        stage = before_temp_write;
        original_path = a.path;
        payload_path = p.payload_path_of a.path attempt_id;
        journal_path = p.journal_path_of a.path;
        temp_path = some temp_path;
        candidate_sha256 = p.engine.host.sha256_bytes out.output_bytes;
        candidate_byte_length = length out.output_bytes;
        accepted_fingerprint = a.fingerprint;
        posix_mode = mode;
      };
      recreate = recreating;
    }

    -- All that comes before the file itself is touched.
    unfoldable pub prepare : Journal → Step W Unit
    prepare journal =
        change (λ s. record s { recovery_blocked = true })
        >> in_world (p.hit at_payload_write)
        >> in_world (p.write_durable_file journal.published.payload_path out.output_bytes)
        >> persist_stage p journal candidate_durable
        >> in_world (p.create_exclusive_temp temp_path)
        >> hold (some temp_path)
        >> in_world (p.write_temp temp_path out.output_bytes)
        >> persist_stage p journal temp_written
        >> in_world (p.flush temp_path)
        >> persist_stage p journal temp_flushed
        >> in_world (p.apply_and_verify_mode temp_path mode)
        >> persist_stage p journal metadata_applied
        >> in_world (p.close_handle temp_path)
        >> hold none
        >> persist_stage p journal precondition_confirmed

    unfoldable pub publish : Bool → Step W Replacement
    publish recreating =
        if recreating
        then in_world (p.publish_if_absent temp_path a.path)
        else in_world (p.validate_expected_and_replace temp_path a.path a.fingerprint)

    -- The replacement is made durable and read back.
    unfoldable pub verify : Journal → Step W AcceptedFileIdentity
    verify journal =
        persist_stage p journal replacement_complete
        >> in_world (p.hit at_after_replacement_before_journal_completion)
        >> in_world (p.sync_directory_of a.path)
        >> in_world (p.verify_readback a.path out.output_bytes mode)
        >>= λ identity.
            persist_stage p journal replacement_verified
            >> persist_stage p journal journal_complete
            >> pure identity

    -- The store takes over what was written.
    unfoldable pub accept_saved : AcceptedFileIdentity → Store → Store
    accept_saved identity s = record (start_watcher s) {
      document = some out.document;
      accepted_fingerprint = some identity.fingerprint;
      accepted_missing = false;
      editor_revision = s.editor_revision + 1;
      state = is_saved;
    }

    unfoldable pub saved_outcome : AcceptedFileIdentity → Store → PrimaryOutcome
    saved_outcome identity s = saved (record {
      base = record { attempt_id = attempt_id; safe_stage = journal_complete };
      accepted = identity;
      save_token = record {
        document_revision_id = out.document.revision_id;
        editor_revision = s.editor_revision + 1;
        fingerprint = identity.fingerprint;
      };
      output_sha256 = out.output_sha256;
      document = to_wire out.document;
    })

    unfoldable pub commit : Journal → AcceptedFileIdentity → Step W SaveOutcome
    unfolding accept_saved saved_outcome
    commit journal identity c =
        (change (accept_saved identity)
            >> cleanup_then p (saved_outcome identity c.store)
                (journal_at p journal journal_complete))
          c

    unfoldable pub after_publish : Bool → Journal → Replacement → Step W SaveOutcome
    after_publish recreating journal (conflicted current) =
        change (λ s. if recreating then start_watcher s else s)
        >> (conflict p attempt_id precondition_confirmed a.fingerprint current >>= λ first.
            cleanup_then p first journal)
    after_publish recreating journal replaced =
        verify journal >>= λ identity. commit journal identity

    -- The body of the `try`, with the fingerprint of the file as it is now.
    unfoldable pub replace_file : Option FileFingerprint → Step W SaveOutcome
    replace_file current c =
        let recreating = c.store.accepted_missing && not (is_some current) in
        let journal = recovery_paths recreating in
        (if not recreating && not (same_fingerprint (some a.fingerprint) current)
            then (conflict p attempt_id before_temp_write a.fingerprint current >>= λ first.
                finish p (primary first))
            else prepare journal >> publish recreating >>= λ replacement.
                after_publish recreating journal replacement)
          c

    unfoldable pub try_save : Step W SaveOutcome
    try_save =
        reach before_temp_write >> hold none >> in_world (p.fingerprint a.path) >>= λ current.
        replace_file current

    abbrev pub close_temp : Option Text → Step W (Attempt Unit)
    close_temp none = pure (done tt)
    close_temp (some handle) = attempt (in_world (p.close_handle handle))

    abbrev pub is_error : {A : Type 0} → Attempt A → Bool
    is_error (done x) = false
    is_error (threw e) = true

    abbrev pub is_temp_close : Option FailurePoint → Bool
    is_temp_close (some at_temp_close) = true
    is_temp_close _ = false

    -- `await this.loadJournalSafe() ?? journal`
    abbrev pub journal_left : Option Journal → Attempt (Option Journal) → Option Journal
    journal_left kept (done (some journal)) = some journal
    journal_left kept _ = kept

    -- What is reported once the evidence is gathered.
    unfoldable pub report :
        Problem → Bool → Attempt (Option Journal) → List Text → Step W SaveOutcome
    report e close_failed loaded residue c =
        let journal = journal_left c.store.recovery loaded in
        let status = classify_save_failure e.point c.stage in
        (change (λ s. record s {
          recovery_blocked =
              if not (is_some journal) && length residue == 0 then false else s.recovery_blocked;
        })
            >> (fail_with p status attempt_id c.stage journal residue >>= λ first.
                if close_failed || is_error loaded
                then cleanup_failure p first residue
                else finish p (primary first)))
          c

    -- The body of the `catch`.
    unfoldable pub handle_problem : Problem → Step W SaveOutcome
    handle_problem e c =
        (close_temp c.temp_handle >>= λ closed.
        attempt (load_journal p c.store.accepted_path) >>= λ loaded.
        residue_evidence p (
          some (p.journal_path_of a.path)
          ∷ some (p.payload_path_of a.path attempt_id)
          ∷ some temp_path
          ∷ map (λ x. some x) e.residue_paths)
        >>= λ residue. report e (is_error closed || is_temp_close e.point) loaded residue)
          c

    unfoldable pub save_serialized : Step W SaveOutcome
    save_serialized = catch try_save handle_problem

  -- The part of `saveLocked` before the candidate is serialized.
  unfoldable pub save_open : Accepted → EditCandidate → Step W SaveOutcome
  save_open a candidate c =
      (if is_some c.store.recovery || c.store.recovery_blocked
          then (residue_evidence p
                (some (p.journal_path_of a.path) ∷ recovery_residue c.store.recovery)
              >>= λ residue.
                  fail_outcome p
                    (if is_some c.store.recovery then recovery_needed else recovery_failed)
                    attempt_id (recovery_stage c.store.recovery) c.store.recovery residue)
          else if is_stale c.store a candidate
          then finish p (
              primary (
                stale_editor_revision (record {
                  base = record { attempt_id = attempt_id; safe_stage = before_temp_write };
                  accepted_revision_id = a.document.revision_id;
                  candidate_revision_id = revision_named candidate.transaction;
                })))
          else (elim (serialize_candidate p a.document candidate.transaction) [
            | none ↦ fail_outcome p serialization_failed attempt_id before_temp_write none []
            | some out ↦ save_serialized a out c.store.accepted_mode
          ]))
        c

  unfoldable pub save_accepted : EditCandidate → Option Accepted → Step W SaveOutcome
  save_accepted candidate none = fail_outcome p write_failed attempt_id before_temp_write none []
  save_accepted candidate (some a) = save_open a candidate

  unfoldable pub save_locked : EditCandidate → Step W SaveOutcome
  unfolding save_accepted
  save_locked candidate c = save_accepted candidate (accepted_of c.store) c

  -- `transactionActive`, which is reset whatever comes of the steps.
  unfoldable pub with_lock : Step W SaveOutcome → Step W SaveOutcome
  with_lock m = change (λ s. record s { transaction_active = true }) >> attempt m >>= λ outcome.
      change (λ s. record s { transaction_active = false }) >> (λ c. (outcome, c))

  -- One save at a time.
  unfoldable pub save : EditCandidate → Step W SaveOutcome
  unfolding with_lock
  save candidate c =
      (if c.store.transaction_active
          then fail_outcome p write_failed attempt_id before_temp_write c.store.recovery []
          else with_lock (save_locked candidate))
        c
