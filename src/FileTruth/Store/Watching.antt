-- ===== src/FileTruth/Store/Watching.antt =====
-- A file that another hand changes: `saveToken`, `checkExternalChange` and `reload` of
-- file-truth-store.ts. What the renderer is told is the answer of a check; the counts of the watcher's
-- events are left out.
pub mod Noticed
use noto.Common.{
  Bool, true, false, ◌&&◌, ◌||◌, Option, none, some, if◌then◌else◌, is_some, ◌==◌, nat_eq, bool_eq,
  list_eq, Text,
}
use noto.Contracts.{Document, DocumentWire}
use noto.Document.{ParseResult, parsed, invalid_utf8, parse_document, to_wire}
use noto.FileTruth.{FileFingerprint, SaveToken}
use noto.FileTruth.Platform.{Attempt, done, threw, Platform, CapturedFile}
use noto.FileTruth.Store.{is_opened, Store, Step, pure, ◌>>=◌, ◌>>◌, in_world, change, attempt}
use noto.FileTruth.Store.Saving.{Accepted, accepted_of, start_watcher}

pub data ExternalChange : Type 0 where
  changed missing : ExternalChange
  rebased : SaveToken → ExternalChange

pub data ReloadRefusal : Type 0 where
  recovery_pending save_in_flight parse_failed no_document : ReloadRefusal

-- What a reload sends: its path, its document and its save token.
pub record Reopened : Type 0 where
  pub path : Text
  pub document : DocumentWire
  pub save_token : SaveToken

pub data ReloadOutcome : Type 0 where
  reloaded : Reopened → ReloadOutcome
  unchanged gone : ReloadOutcome
  not_reloaded : ReloadRefusal → ReloadOutcome

-- `saveToken`, of what was accepted.
abbrev pub save_token_of : Store → Document → FileFingerprint → SaveToken
save_token_of s d f = record {
  document_revision_id = d.revision_id;
  editor_revision = s.editor_revision;
  fingerprint = f;
}

abbrev pub is_same_file : FileFingerprint → FileFingerprint → Bool
is_same_file accepted current =
    current.object.opaque_id == accepted.object.opaque_id
    && (current.mtime_nanoseconds == accepted.mtime_nanoseconds
        && current.content_sha256 == accepted.content_sha256)

abbrev pub moved_to : FileFingerprint → Store → Store
moved_to f s = record s { accepted_fingerprint = some f; accepted_missing = false }

module _ {W : Type 0} (p : Platform W) where
  -- The file is there: it is ours, or the same bytes elsewhere, or other bytes.
  unfoldable pub note_file : Accepted → FileFingerprint → Step W (Option ExternalChange)
  note_file a current c =
      (if is_same_file a.fingerprint current
          then pure none
          else if current.content_sha256 == a.fingerprint.content_sha256
          then (change (moved_to current)
              >> pure (some (rebased (save_token_of c.store a.document current))))
          else (change (λ s. record s { accepted_missing = false }) >> pure (some changed)))
        c

  unfoldable pub note_look :
      Accepted → Attempt (Option FileFingerprint) → Step W (Option ExternalChange)
  unfolding note_file
  note_look a (threw e) = pure none
  note_look a (done none) =
      change (λ s. record s { accepted_missing = true }) >> pure (some missing)
  note_look a (done (some current)) = note_file a current

  unfoldable pub check_accepted : Option Accepted → Step W (Option ExternalChange)
  unfolding note_look
  check_accepted none = pure none
  check_accepted (some a) =
      attempt (in_world (p.fingerprint a.path)) >>= λ looked. note_look a looked

  unfoldable pub check_external_change : Step W (Option ExternalChange)
  unfolding check_accepted
  check_external_change c = check_accepted (accepted_of c.store) c

  abbrev pub reopened_store : Accepted → CapturedFile → Document → Store → Store
  reopened_store a captured d s = record (start_watcher s) {
    document = some (record d { document_id = a.document.document_id });
    accepted_fingerprint = some captured.identity.fingerprint;
    accepted_missing = false;
    accepted_mode = captured.identity.posix_mode;
    editor_revision = 0;
    state = is_opened;
    last_outcome = none;
  }

  unfoldable pub reopen : Accepted → CapturedFile → ParseResult → Step W ReloadOutcome
  reopen a captured (invalid_utf8 bytes) = pure (not_reloaded parse_failed)
  reopen a captured (parsed d) =
      change (reopened_store a captured d)
      >> pure (
          reloaded (record {
            path = captured.identity.canonical_path;
            document = to_wire (record d { document_id = a.document.document_id });
            save_token = record {
              document_revision_id = d.revision_id;
              editor_revision = 0;
              fingerprint = captured.identity.fingerprint;
            };
          }))

  -- By what became of the reading of the file.
  unfoldable pub reload_from : Accepted → Attempt CapturedFile → Step W ReloadOutcome
  unfolding reopen
  reload_from a (threw e) = pure gone
  reload_from a (done captured) =
      if captured.identity.fingerprint.content_sha256 == a.fingerprint.content_sha256
      then (change (moved_to captured.identity.fingerprint) >> pure unchanged)
      else reopen a captured (parse_document p.engine.host captured.bytes)

  unfoldable pub reload_unlocked : Accepted → Step W ReloadOutcome
  unfolding reload_from
  reload_unlocked a =
      change (λ s. record s { transaction_active = true })
      >> attempt (in_world (p.capture a.path))
      >>= λ captured. reload_from a captured >>= λ outcome.
          change (λ s. record s { transaction_active = false }) >> pure outcome

  unfoldable pub reload_accepted : Option Accepted → Step W ReloadOutcome
  unfolding reload_unlocked
  reload_accepted none c = pure (not_reloaded no_document) c
  reload_accepted (some a) c =
      (if c.store.transaction_active
          then pure (not_reloaded save_in_flight)
          else if is_some c.store.recovery || c.store.recovery_blocked
          then pure (not_reloaded recovery_pending)
          else reload_unlocked a)
        c

  unfoldable pub reload : Step W ReloadOutcome
  unfolding reload_accepted
  reload c = reload_accepted (accepted_of c.store) c
