-- ===== src/FileTruth/Node.antt =====
-- The operations of src/main/file-truth/v1/node-platform.ts that make, write and publish the temporary
-- file of a save, over those of node:fs/promises, which are parameters. A handle is known by the path
-- it was made for; an error of `link` is told by the sets of codes that the source tells apart.
pub mod Writing
pub mod Publishing
pub mod Atomic
use noto.Common.{
  ℕ, zero, suc, ◌+◌, Bool, true, false, not, ◌&&◌, ◌||◌, Option, none, some, List, [], ◌∷◌, ltb,
  if◌then◌else◌, ◌==◌, nat_eq, bool_eq, list_eq, length, drop, Text,
}
use noto.FileTruth.{FileFingerprint, AcceptedFileIdentity}
use noto.FileTruth.Platform.{
  Attempt, done, threw, Problem, not_found, readback_mismatch, other_reason, Platform, Replacement,
  replaced, conflicted, CapturedFile, FailurePoint, at_before_temp_write, at_after_write,
  at_after_flush, at_metadata, at_before_replacement, at_replacement, at_before_replace_validation,
  at_temp_close, at_cleanup, at_readback, same_fingerprint,
}
use noto.FileTruth.Store.Recovering.{is_not_found}

-- What `link` answers: EEXIST, one of LINK_UNSUPPORTED, or another error.
pub data Linked : Type 0 where
  linked already_there unsupported : Linked
  link_failed : Problem → Linked

pub record Primitives (W : Type 0) : Type 0 where
  pub open_exclusive : Text → W → Attempt Unit × W
  pub write_at : Text → List ℕ → ℕ → W → Attempt ℕ × W
  pub sync_handle : Text → W → Attempt Unit × W
  pub close : Text → W → Attempt Unit × W
  pub change_mode : Text → ℕ → W → Attempt Unit × W
  pub mode_of : Text → W → Attempt ℕ × W
  pub rename : Text → Text → W → Attempt Unit × W
  pub link : Text → Text → W → Linked × W
  pub lstat : Text → W → Attempt Unit × W
  pub remove_file : Text → W → Attempt Unit × W

-- `PlatformCapabilities`
pub record Capabilities : Type 0 where
  pub preserves_posix_mode : Bool
  pub can_hard_link : Bool

abbrev pub Io : Type 0 → Type 0 → Type 0
Io W A = W → Attempt A × W

abbrev pub failed_with : Problem
failed_with = record { reason = other_reason; point = none; residue_paths = [] }

module _ {W : Type 0} where
  infixl 5 ◌>>>=◌ ◌>>>◌
  abbrev pub give : {A : Type 0} → A → Io W A
  give x w = (done x, w)

  abbrev pub fail_io : {A : Type 0} → Problem → Io W A
  fail_io e w = (threw e, w)

  unfoldable pub ◌>>>=◌ : {A B : Type 0} → Io W A → (A → Io W B) → Io W B
  (m >>>= f) w = elim (m w).0 [ done x ↦ f x (m w).1 | threw e ↦ (threw e, (m w).1) ]

  abbrev pub ◌>>>◌ : {A B : Type 0} → Io W A → Io W B → Io W B
  m >>> k = m >>>= λ x. k

  -- `try`: an error is an answer.
  unfoldable pub attempt_io : {A : Type 0} → Io W A → Io W (Attempt A)
  attempt_io m w = (done (m w).0, (m w).1)

module _ {W : Type 0} (fs : Primitives W) (base : Platform W) (capabilities : Capabilities) where
  -- `writeAll`, from an offset on; every turn writes at least one byte, so as many turns as bytes are
  -- enough.
  unfoldable pub write_rest : ℕ → Text → List ℕ → ℕ → Io W Unit
  write_rest zero handle bytes offset = give tt
  write_rest (suc turns) handle bytes offset =
      if ltb offset (length bytes)
      then (fs.write_at handle (drop offset bytes) offset >>>= λ written.
          if written == 0
          then fail_io failed_with
          else write_rest turns handle bytes (offset + written))
      else give tt

  unfoldable pub write_all : Text → List ℕ → Io W Unit
  write_all handle bytes = write_rest (length bytes) handle bytes 0

  unfoldable pub node_write_temp : Text → List ℕ → Io W Unit
  node_write_temp handle bytes =
      base.hit at_before_temp_write >>> write_all handle bytes >>> base.hit at_after_write

  unfoldable pub node_flush : Text → Io W Unit
  node_flush handle = fs.sync_handle handle >>> base.hit at_after_flush

  unfoldable pub node_mode : Text → ℕ → Io W Unit
  node_mode handle mode =
      base.hit at_metadata
      >>> fs.change_mode handle mode
      >>> (if capabilities.preserves_posix_mode
          then (fs.mode_of handle >>>= λ actual.
              if actual == mode then give tt else fail_io failed_with)
          else give tt)
      >>> fs.sync_handle handle

  unfoldable pub node_close : Text → Io W Unit
  node_close handle = fs.close handle >>> base.hit at_temp_close

  unfoldable pub node_remove : Text → Io W Unit
  node_remove path = base.hit at_cleanup >>> fs.remove_file path

  -- `replace`
  unfoldable pub replace : Text → Text → Io W Unit
  replace temp original =
      base.hit at_before_replacement >>> base.hit at_replacement >>> fs.rename temp original

  abbrev pub or_unreadable : Attempt (Option FileFingerprint) → Option FileFingerprint
  or_unreadable (done current) = current
  or_unreadable (threw e) = none

  unfoldable pub fingerprint_if_readable : Text → Io W (Option FileFingerprint)
  fingerprint_if_readable path =
      attempt_io (base.fingerprint path) >>>= λ read. give (or_unreadable read)

  unfoldable pub there : Attempt Unit → Io W Bool
  there (done x) = give true
  there (threw e) = if is_not_found e.reason then give false else fail_io e

  unfoldable pub exists_at_all : Text → Io W Bool
  exists_at_all path = attempt_io (fs.lstat path) >>>= λ found. there found

  abbrev pub conflict_at : Text → Io W Replacement
  conflict_at path = fingerprint_if_readable path >>>= λ current. give (conflicted current)

  -- Without hard links: what is there is looked at once more before the rename.
  unfoldable pub publish_by_rename : Text → Text → Io W Replacement
  publish_by_rename temp destination = exists_at_all destination >>>= λ occupied.
      if occupied then conflict_at destination else fs.rename temp destination >>> give replaced

  unfoldable pub after_link : Text → Text → Linked → Io W Replacement
  after_link temp destination linked = attempt_io (fs.remove_file temp) >>> give replaced
  after_link temp destination already_there = conflict_at destination
  after_link temp destination unsupported = publish_by_rename temp destination
  after_link temp destination (link_failed e) = fail_io e

  unfoldable pub try_link : Text → Text → Io W Replacement
  try_link temp destination w =
      after_link temp destination (fs.link temp destination w).0 (fs.link temp destination w).1

  unfoldable pub node_publish_if_absent : Text → Text → Io W Replacement
  node_publish_if_absent temp destination =
      base.hit at_before_replacement
      >>> base.hit at_replacement
      >>> (if capabilities.can_hard_link
          then try_link temp destination
          else publish_by_rename temp destination)

  unfoldable pub node_replace_expected : Text → Text → FileFingerprint → Io W Replacement
  node_replace_expected temp original expected =
      base.hit at_before_replace_validation >>> base.fingerprint original >>>= λ current.
      if same_fingerprint (some expected) current
      then replace temp original >>> give replaced
      else give (conflicted current)

  unfoldable pub check_readback : List ℕ → ℕ → CapturedFile → Io W AcceptedFileIdentity
  check_readback expected mode captured =
      if not (length captured.bytes == length expected)
        || not
            (base.engine.host.sha256_bytes captured.bytes == base.engine.host.sha256_bytes expected)
      then fail_io (record { reason = readback_mismatch; point = none; residue_paths = [] })
      else if capabilities.preserves_posix_mode && not (captured.identity.posix_mode == mode)
      then fail_io (record { reason = readback_mismatch; point = none; residue_paths = [] })
      else give captured.identity

  unfoldable pub node_readback : Text → List ℕ → ℕ → Io W AcceptedFileIdentity
  node_readback path expected mode = base.hit at_readback >>> base.capture path >>>= λ captured.
      check_readback expected mode captured

  -- A platform with these operations, and the others as they were.
  abbrev pub node_platform : Platform W
  node_platform = record base {
    create_exclusive_temp = fs.open_exclusive;
    write_temp = node_write_temp;
    flush = node_flush;
    apply_and_verify_mode = node_mode;
    close_handle = node_close;
    publish_if_absent = node_publish_if_absent;
    validate_expected_and_replace = node_replace_expected;
    verify_readback = node_readback;
    remove = node_remove;
    remove_without_injection = fs.remove_file;
  }
