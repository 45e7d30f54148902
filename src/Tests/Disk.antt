-- ===== src/Tests/Disk.antt =====
-- A small file system: a list of paths with what is in them.
use noto.Common.{
  take, ap, append-nil, ◌==◌, ℕ, ◌≡◌, refl, Option, none, some, List, [], ◌++◌, if◌then◌else◌,
  is_some, nat_eq, bool_eq, list_eq, length, Text, codes, list_beq_iff, arith, Bool-cases, inl, inr,
  sym, ◌∙◌, ◌≢◌,
}
use noto.Common.Maps.{lookup, insert, remove, lookup-insert, lookup-remove}
use noto.FileTruth.{FileFingerprint, path}
use noto.FileTruth.Platform.{
  not_found, Problem, Attempt, done, threw, Replacement, replaced, conflicted, Platform,
  CapturedFile, same_fingerprint,
}
use noto.Tests.Saving.{plain_engine}
use noto.FileTruth.Node.{Primitives, Linked, linked, already_there, link_failed}
use noto.FileTruth.Node.Writing.{FileSystem, Moves, Links, Appends}

abbrev pub Disk : Type 0
Disk = List (Text × List ℕ)

abbrev pub fingerprint_of : Text → List ℕ → FileFingerprint
fingerprint_of name bytes = record {
  object = record { opaque_id = name; basis = path };
  byte_length = length bytes;
  mtime_nanoseconds = codes "0";
  content_sha256 = bytes;
}

abbrev pub no_file : Problem
no_file = record { reason = not_found; point = none; residue_paths = [] }

abbrev pub captured_at : Text → Option (List ℕ) → Attempt CapturedFile
captured_at name none = threw no_file
captured_at name (some bytes) = done (record {
  identity = record {
    canonical_path = name;
    fingerprint = fingerprint_of name bytes;
    posix_mode = 420;
  };
  bytes = bytes;
})

abbrev pub fingerprint_at : Text → Option (List ℕ) → Option FileFingerprint
fingerprint_at name none = none
fingerprint_at name (some bytes) = some (fingerprint_of name bytes)

abbrev pub bytes_or_nothing : Option (List ℕ) → List ℕ
bytes_or_nothing none = []
bytes_or_nothing (some bytes) = bytes

abbrev pub rename_found : Text → Text → Option (List ℕ) → Disk → Attempt Replacement × Disk
rename_found temp target none w = (threw no_file, w)
rename_found temp target (some bytes) w = (done replaced, insert target bytes (remove temp w))

abbrev pub rename : Text → Text → Disk → Attempt Replacement × Disk
rename temp target w = rename_found temp target (lookup temp w) w

abbrev pub replace_expected : Text → Text → FileFingerprint → Disk → Attempt Replacement × Disk
replace_expected temp target f w =
    if same_fingerprint (some f) (fingerprint_at target (lookup target w))
    then rename temp target w
    else (done (conflicted (fingerprint_at target (lookup target w))), w)

abbrev pub small_platform : Platform Disk
small_platform = record {
  engine = plain_engine;
  recovery_root = codes "journals";
  journal_path_of = λ name. codes "journal:" ++ name;
  payload_path_of = λ name attempt_id. codes "payload:" ++ name ++ attempt_id;
  temp_path_for = λ name attempt_id. codes "temp:" ++ name ++ attempt_id;
  resolve = λ name. name;
  encode_journal = λ journal. journal.published.payload_path;
  decode_journal = λ bytes. none;
  hit = λ point w. (done tt, w);
  capture = λ name w. (captured_at name (lookup name w), w);
  fingerprint = λ name w. (done (fingerprint_at name (lookup name w)), w);
  write_durable_file = λ name bytes w. (done tt, insert name bytes w);
  create_exclusive_temp = λ name w. (done tt, insert name [] w);
  write_temp = λ name bytes w. (done tt, insert name bytes w);
  flush = λ name w. (done tt, w);
  apply_and_verify_mode = λ name mode w. (done tt, w);
  close_handle = λ name w. (done tt, w);
  publish_if_absent = rename;
  validate_expected_and_replace = replace_expected;
  publish_exclusive = λ temp target bytes mode w. (done tt, (rename temp target w).1);
  remove_without_injection = λ name w. (done tt, remove name w);
  sync_directory_of = λ name w. (done tt, w);
  verify_readback = λ name bytes mode w. (
    done (record {
      canonical_path = name;
      fingerprint = fingerprint_of name bytes;
      posix_mode = mode;
    }),
    w,
  );
  remove = λ name w. (done tt, remove name w);
  exists = λ name w. (done (is_some (lookup name w)), w);
  read_bytes = λ name w. (done (bytes_or_nothing (lookup name w)), w);
  list_recovery_artifacts = λ name w. (done [], w);
  list_owned_temps = λ name w. (done [], w);
  list_durable_internal_temps = λ name w. (done [], w);
}

lookup-insert_apart :
    (key other : Text) (value : List ℕ) (w : Disk)
    → key ≢ other
    → lookup other (insert key value w) ≡ lookup other w
lookup-insert_apart key other value w apart =
    ground (arith, lookup-insert key other value w, list_beq_iff key other)

lookup-remove_apart :
    (key other : Text) (w : Disk) → key ≢ other → lookup other (remove key w) ≡ lookup other w
lookup-remove_apart key other w apart =
    ground (arith, lookup-remove key other w, list_beq_iff key other)

lookup-insert_self :
    (key : Text) (value : List ℕ) (w : Disk) → lookup key (insert key value w) ≡ some value
lookup-insert_self key value w = ground (arith, lookup-insert key key value w, list_beq_iff key key)

abbrev pub content : Disk → Text → Option (List ℕ)
content w name = lookup name w

-- The operations of node:fs/promises on the disk; a write takes one byte at a time.
abbrev pub write_one : Option (List ℕ) → Text → List ℕ → Disk → Attempt ℕ × Disk
write_one none name bytes w = (threw no_file, w)
write_one (some held) name bytes w = (done 1, insert name (held ++ take 1 bytes) w)

abbrev pub renamed : Text → Text → Option (List ℕ) → Disk → Attempt Unit × Disk
renamed temp target none w = (threw no_file, w)
renamed temp target (some bytes) w = (done tt, insert target bytes (remove temp w))

abbrev pub link_found : Text → Option (List ℕ) → Option (List ℕ) → Disk → Linked × Disk
link_found target (some held) o w = (already_there, w)
link_found target none none w = (link_failed no_file, w)
link_found target none (some bytes) w = (linked, insert target bytes w)

abbrev pub small_primitives : Primitives Disk
small_primitives = record {
  open_exclusive = λ name w. (done tt, insert name [] w);
  write_at = λ name bytes offset w.
      if length bytes == 0 then (done 0, w) else write_one (lookup name w) name bytes w;
  sync_handle = λ name w. (done tt, w);
  close = λ name w. (done tt, w);
  change_mode = λ name mode w. (done tt, w);
  mode_of = λ name w. (done 420, w);
  rename = λ temp target w. renamed temp target (lookup temp w) w;
  link = λ temp target w. link_found target (lookup target w) (lookup temp w) w;
  lstat = λ name w. (if is_some (lookup name w) then done tt else threw no_file, w);
  remove_file = λ name w. (done tt, remove name w);
}

module _ (original temp : Text) (apart : temp ≢ original) where
  renamed-Moves :
      (o : Option (List ℕ)) (w : Disk)
      → lookup temp w ≡ o
      → Moves small_primitives small_platform content original temp w
          (renamed temp original o w).0
          (renamed temp original o w).1
  renamed-Moves none w h = inl refl
  renamed-Moves (some bytes) w h = lookup-insert_self original bytes _ ∙ sym h

  link_found-Links :
      (there o : Option (List ℕ)) (w : Disk)
      → lookup temp w ≡ o
      → Links small_primitives small_platform content original temp w
          (link_found original there o w).0
          (link_found original there o w).1
  link_found-Links (some held) o w h = (refl, refl)
  link_found-Links none none w h = inl refl
  link_found-Links none (some bytes) w h = lookup-insert_self original bytes w ∙ sym h

  write_one-Kept :
      (o : Option (List ℕ)) (bytes : List ℕ) (w : Disk)
      → content (write_one o temp bytes w).1 original ≡ content w original
  write_one-Kept none bytes w = refl
  write_one-Kept (some held) bytes w = lookup-insert_apart temp original _ w apart

  write_at-Kept :
      (bytes : List ℕ) (offset : ℕ) (w : Disk)
      → content (small_primitives.write_at temp bytes offset w).1 original ≡ content w original
  write_at-Kept bytes offset w = elim (Bool-cases (length bytes == 0)) [
    | inl empty ↦ rw (empty) refl
    | inr some_left ↦ rw (some_left) (write_one-Kept (lookup temp w) bytes w)
  ]

  write_at-Appends :
      (before rest : List ℕ) (offset : ℕ) (w : Disk)
      → content w temp ≡ some before
      → Appends small_primitives small_platform content original temp before rest
          (small_primitives.write_at temp rest offset w).0
          (small_primitives.write_at temp rest offset w).1
  write_at-Appends before rest offset w here = elim (Bool-cases (length rest == 0)) [
    | inl empty ↦ rw (empty) (omega arith, here ∙ ap (λ x. some x) (sym (append-nil before)))
    | inr some_left ↦ rw (some_left, here) (ground (arith, some_left), lookup-insert_self temp _ w)
  ]

  pub small_primitives-FileSystem : FileSystem small_primitives small_platform content original temp
  small_primitives-FileSystem = record {
    open_exclusive = λ w. lookup-insert_apart temp original [] w apart;
    opened = λ w. lookup-insert_self temp [] w;
    write_at = write_at-Kept;
    appends = λ before rest offset w place here. write_at-Appends before rest offset w here;
    sync_handle = λ w. (refl, refl);
    close = λ path w. (refl, refl);
    change_mode = λ mode w. (refl, refl);
    mode_of = λ w. (refl, refl);
    rename = λ w. renamed-Moves (lookup temp w) w refl;
    link = λ w. link_found-Links (lookup original w) (lookup temp w) w refl;
    lstat = λ w. (refl, refl);
    remove_file = λ path w a. lookup-remove_apart path original w a;
    hit = λ x w. (refl, refl);
    fingerprint = λ w. (refl, refl);
    capture = λ w. (refl, refl);
    exists = λ path w. (refl, refl);
    read_bytes = λ path w. (refl, refl);
    write_durable_file = λ path bytes w a b.
        (lookup-insert_apart path original bytes w a, lookup-insert_apart path temp bytes w b);
    sync = λ w. (refl, refl);
  }
