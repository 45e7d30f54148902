-- ===== src/FileTruth/Platform.antt =====
-- What the store of an open file has from its platform: `FileTruthFailurePointV1`,
-- `ExpectedReplaceResultV1` and `sameFingerprint` of src/main/file-truth/v1/node-platform.ts. The file
-- system itself is a parameter: each operation takes the state of the world and gives back an answer
-- or an error, and the world as it is then. A handle is known by the path it was made for.
use noto.Common.{ℕ, Bool, false, ◌&&◌, Option, some, List, ◌==◌, nat_eq, bool_eq, list_eq, Text}
use noto.Serialize.{BlockEngine}
use noto.FileTruth.{
  FileFingerprint, AcceptedFileIdentity, RecoveryRecord, Stage, FailureStatus, before_temp_write,
  candidate_durable, temp_written, replacement_complete, replacement_verified, journal_complete,
  write_failed, flush_failed, replacement_failed, metadata_failed, recovery_needed,
}

pub data FailurePoint : Type 0 where
  at_before_temp_write at_after_write at_after_flush at_before_replacement
        at_after_replacement_before_journal_completion at_directory_flush at_metadata at_replacement
        at_readback at_journal_write at_payload_write at_cleanup at_temp_close at_journal_read
        at_durable_write at_durable_sync at_durable_rename at_durable_remove
        at_before_replace_validation :
      FailurePoint

-- What the code tells errors apart by: the code ENOENT, and the two messages of `verifyReadback`.
pub data Reason : Type 0 where
  not_found readback_mismatch other_reason : Reason

-- An error: why, the point of an injected failure, and the paths that a failed operation left behind.
pub record Problem : Type 0 where
  pub reason : Reason
  pub point : Option FailurePoint
  pub residue_paths : List Text

pub data Attempt (A : Type 0) : Type 0 where
  done : A → Attempt A
  threw : Problem → Attempt A

-- `ExpectedReplaceResultV1`
pub data Replacement : Type 0 where
  replaced : Replacement
  conflicted : Option FileFingerprint → Replacement

-- A recovery record as it is kept in the journal.
pub record Journal : Type 0 where
  pub published : RecoveryRecord
  pub recreate : Bool

pub record CapturedFile : Type 0 where
  pub identity : AcceptedFileIdentity
  pub bytes : List ℕ

pub record Platform (W : Type 0) : Type 0 where
  pub engine : BlockEngine
  pub recovery_root : Text
  pub journal_path_of : Text → Text
  pub payload_path_of : Text → Text → Text
  pub resolve : Text → Text
  pub temp_path_for : Text → Text → Text
  pub encode_journal : Journal → List ℕ
  pub decode_journal : List ℕ → Option Journal
  pub hit : FailurePoint → W → Attempt Unit × W
  pub capture : Text → W → Attempt CapturedFile × W
  pub fingerprint : Text → W → Attempt (Option FileFingerprint) × W
  pub write_durable_file : Text → List ℕ → W → Attempt Unit × W
  pub create_exclusive_temp : Text → W → Attempt Unit × W
  pub write_temp : Text → List ℕ → W → Attempt Unit × W
  pub flush : Text → W → Attempt Unit × W
  pub apply_and_verify_mode : Text → ℕ → W → Attempt Unit × W
  pub close_handle : Text → W → Attempt Unit × W
  pub publish_if_absent : Text → Text → W → Attempt Replacement × W
  pub validate_expected_and_replace : Text → Text → FileFingerprint → W → Attempt Replacement × W
  pub publish_exclusive : Text → Text → List ℕ → ℕ → W → Attempt Unit × W
  pub remove_without_injection : Text → W → Attempt Unit × W
  pub sync_directory_of : Text → W → Attempt Unit × W
  pub verify_readback : Text → List ℕ → ℕ → W → Attempt AcceptedFileIdentity × W
  pub remove : Text → W → Attempt Unit × W
  pub exists : Text → W → Attempt Bool × W
  pub read_bytes : Text → W → Attempt (List ℕ) × W
  pub list_recovery_artifacts : Text → W → Attempt (List Text) × W
  pub list_owned_temps : Text → W → Attempt (List Text) × W
  pub list_durable_internal_temps : Text → W → Attempt (List Text) × W

unfoldable pub same_fingerprint : Option FileFingerprint → Option FileFingerprint → Bool
same_fingerprint (some left) (some right) =
    left.object.opaque_id == right.object.opaque_id
    && (left.byte_length == right.byte_length
        && (left.mtime_nanoseconds == right.mtime_nanoseconds
            && left.content_sha256 == right.content_sha256))
same_fingerprint _ _ = false

-- `classifySaveFailure`, by the stage that was reached.
pub classify_stage : Stage → FailureStatus
classify_stage replacement_complete = recovery_needed
classify_stage replacement_verified = recovery_needed
classify_stage journal_complete = recovery_needed
classify_stage before_temp_write = write_failed
classify_stage candidate_durable = write_failed
classify_stage temp_written = write_failed
classify_stage _ = flush_failed

pub classify_directory_flush : Stage → FailureStatus
classify_directory_flush replacement_complete = recovery_needed
classify_directory_flush _ = flush_failed

unfoldable pub classify_save_failure : Option FailurePoint → Stage → FailureStatus
unfolding classify_stage classify_directory_flush
classify_save_failure (some at_metadata) stage = metadata_failed
classify_save_failure (some at_replacement) stage = replacement_failed
classify_save_failure (some at_before_replacement) stage = replacement_failed
classify_save_failure (some at_before_replace_validation) stage = replacement_failed
classify_save_failure (some at_directory_flush) stage = classify_directory_flush stage
classify_save_failure (some at_after_flush) stage = flush_failed
classify_save_failure (some at_after_replacement_before_journal_completion) stage = recovery_needed
classify_save_failure _ stage = classify_stage stage
