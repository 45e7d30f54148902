-- ===== src/FileTruth.antt =====
-- The outcomes of a save, from src/shared/file-truth/v1/contracts.ts, and what the renderer makes of
-- them, src/renderer/file-truth-state.ts. Fields that are the same constant in every value, such as
-- the version, are left out, and so are the texts of messages; `dirtyPreserved` is a function of the outcome.
pub mod Actions
pub mod Platform
pub mod Store
pub mod Node
use noto.Common.{
  ℕ, Bool, true, false, not, ◌||◌, Option, none, some, List, [], ◌∷◌, ltb, is_some, ◌==◌, nat_eq,
  list_eq, length, Text,
}
use noto.Contracts.{DocumentWire}

pub data IdentityBasis : Type 0 where
  inode path : IdentityBasis

pub record FileObjectIdentity : Type 0 where
  pub opaque_id : Text
  pub basis : IdentityBasis

pub record FileFingerprint : Type 0 where
  pub object : FileObjectIdentity
  pub byte_length : ℕ
  pub mtime_nanoseconds : Text
  pub content_sha256 : Text

pub record AcceptedFileIdentity : Type 0 where
  pub canonical_path : Text
  pub fingerprint : FileFingerprint
  pub posix_mode : ℕ

pub record SaveToken : Type 0 where
  pub document_revision_id : Text
  pub editor_revision : ℕ
  pub fingerprint : FileFingerprint

pub data Stage : Type 0 where
  before_temp_write candidate_durable temp_written temp_flushed metadata_applied
        precondition_confirmed replacement_complete replacement_verified journal_complete cleanup :
      Stage

pub record RecoveryRecord : Type 0 where
  pub attempt_id : Text
  pub stage : Stage
  pub original_path : Text
  pub payload_path : Text
  pub journal_path : Text
  pub temp_path : Option Text
  pub candidate_sha256 : Text
  pub candidate_byte_length : ℕ
  pub accepted_fingerprint : FileFingerprint
  pub posix_mode : ℕ

pub record OutcomeBase : Type 0 where
  pub attempt_id : Text
  pub safe_stage : Stage

pub record SavedOutcome : Type 0 where
  pub base : OutcomeBase
  pub accepted : AcceptedFileIdentity
  pub save_token : SaveToken
  pub output_sha256 : Text
  pub document : DocumentWire

pub record CopySavedOutcome : Type 0 where
  pub base : OutcomeBase
  pub destination_path : Text
  pub output_sha256 : Text

pub record ExternalConflict : Type 0 where
  pub base : OutcomeBase
  pub accepted_fingerprint : FileFingerprint
  pub current_fingerprint : Option FileFingerprint

pub record StaleRevision : Type 0 where
  pub base : OutcomeBase
  pub accepted_revision_id : Text
  pub candidate_revision_id : Text

pub data FailureStatus : Type 0 where
  serialization_failed write_failed flush_failed replacement_failed metadata_failed recovery_needed
        recovery_failed :
      FailureStatus

-- What a failure has left behind.
pub record Residue : Type 0 where
  pub recovery : Option RecoveryRecord
  pub recovery_record_id : Option Text
  pub residue_paths : List Text

pub record FailureOutcome : Type 0 where
  pub base : OutcomeBase
  pub status : FailureStatus
  pub residue : Residue

-- Every outcome but a failed cleanup, which has one of these as its primary outcome.
pub data PrimaryOutcome : Type 0 where
  saved : SavedOutcome → PrimaryOutcome
  copy_saved : CopySavedOutcome → PrimaryOutcome
  external_conflict : ExternalConflict → PrimaryOutcome
  stale_editor_revision : StaleRevision → PrimaryOutcome
  failure : FailureOutcome → PrimaryOutcome

pub data SaveOutcome : Type 0 where
  primary : PrimaryOutcome → SaveOutcome
  cleanup_failed : OutcomeBase → PrimaryOutcome → Residue → SaveOutcome

-- The field `dirtyPreserved`, which the type of each outcome fixes.
pub dirty_preserved : SaveOutcome → Bool
dirty_preserved (primary (saved o)) = false
dirty_preserved _ = true

pub data UiState : Type 0 where
  ui_opened ui_unsaved_changes ui_saving ui_saved ui_external_conflict ui_save_failed
        ui_recovery_needed ui_recovery_failed ui_cleanup_failed ui_stale_editor_revision
        ui_changed_on_disk ui_file_removed :
      UiState

pub present_failure : FailureStatus → UiState × Bool
present_failure recovery_needed = (ui_recovery_needed, true)
present_failure recovery_failed = (ui_recovery_failed, true)
present_failure _ = (ui_save_failed, true)

unfoldable pub present_outcome : SaveOutcome → UiState × Bool
unfolding present_failure
present_outcome (primary (saved o)) = (ui_saved, false)
present_outcome (primary (copy_saved o)) = (ui_unsaved_changes, true)
present_outcome (primary (external_conflict o)) = (ui_external_conflict, true)
present_outcome (primary (stale_editor_revision o)) = (ui_stale_editor_revision, true)
present_outcome (primary (failure o)) = present_failure o.status
present_outcome (cleanup_failed base o r) = (ui_cleanup_failed, true)

pub saved_snapshot_leaves_dirty : ℕ → ℕ → Bool
saved_snapshot_leaves_dirty captured current = not (current == captured)

unfoldable pub accepted_save_outcome : SaveOutcome → Option SavedOutcome
accepted_save_outcome (primary (saved o)) = some o
accepted_save_outcome (cleanup_failed base (saved o) r) = some o
accepted_save_outcome _ = none

unfoldable pub outcome_has_recovery_evidence : SaveOutcome → Bool
outcome_has_recovery_evidence (cleanup_failed base o r) = true
outcome_has_recovery_evidence (primary (failure o)) =
    is_some o.residue.recovery || ltb 0 (length o.residue.residue_paths)
outcome_has_recovery_evidence _ = false

pub data Action : Type 0 where
  retry_save retry_recovery save_copy reload : Action

-- The default of the last argument of `fileTruthActions`.
unfoldable pub is_recovery_barrier : UiState → Bool
is_recovery_barrier ui_recovery_needed = true
is_recovery_barrier ui_recovery_failed = true
is_recovery_barrier ui_cleanup_failed = true
is_recovery_barrier _ = false

abbrev pub copy_if : Bool → List Action
copy_if true = save_copy ∷ []
copy_if false = []

-- The actions where no recovery is in the way, for a dirty editor or a clean one.
pub plain_actions : UiState → Bool → List Action
plain_actions ui_save_failed true = retry_save ∷ save_copy ∷ []
plain_actions ui_external_conflict true = reload ∷ save_copy ∷ []
plain_actions ui_stale_editor_revision true = save_copy ∷ []
plain_actions ui_changed_on_disk dirty = reload ∷ copy_if dirty
plain_actions _ _ = []

unfoldable pub file_truth_actions : UiState → Bool → Bool → List Action
unfolding plain_actions
file_truth_actions state dirty true = retry_recovery ∷ copy_if dirty
file_truth_actions state dirty false = plain_actions state dirty

pub reload_needs_confirm : Bool → Bool
reload_needs_confirm dirty = dirty
