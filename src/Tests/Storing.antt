-- ===== src/Tests/Storing.antt =====
-- A store on a small file system.
use noto.Common.{
  true, ap, ℕ, arith, ◌≡◌, refl, false, none, some, [], ◌∷◌, map, nat_eq, bool_eq, list_eq, Text,
  codes, ◌⊎◌,
}
use noto.Common.Maps.{lookup, insert, remove}
use noto.Document.{to_wire, parse_document}
use noto.Contracts.{Document, TransactionWire, plain, blocks}
use noto.FileTruth.{
  accepted_save_outcome, SavedOutcome, primary, saved, journal_complete, before_temp_write,
  SaveOutcome,
}
use noto.FileTruth.Store.{catch, ◌>>=◌, attempt, is_opened, Store, EditCandidate, Cell}
use noto.FileTruth.Store.Saving.{
  with_lock, save_locked, save_accepted, save_open, save_serialized, try_save, replace_file,
  recovery_paths, prepare, publish, verify, commit, after_publish, accept_saved, saved_outcome,
  Accepted, is_stale, save,
}
use noto.FileTruth.Store.Steps.{
  persist_journal, cleanup_then, after_cleanup, serialize_candidate, load_journal,
}
use noto.FileTruth.Store.Rendering.{SaveReply, Sends, save_for_renderer, save_for_renderer-Sends}
use noto.FileTruth.Platform.{Platform, done, same_fingerprint}
use noto.FileTruth.Store.Saving.Settled.{Reported, SameBase}
use noto.FileTruth.Store.Copying.{save_copy}
use noto.FileTruth.Store.Copying.Apart.{save_copy-SameBase}
use noto.FileTruth.Store.Saving.Outcome.{save-Reported}
use noto.FileTruth.Store.Saving.Returns.{save_ends}
use noto.FileTruth.Store.Watching.{check_external_change, reload}
use noto.FileTruth.Store.Watching.Noticed.{
  Noticed, check_external_change-Noticed, Reloads, reload-Reloads,
}
use noto.Revision.Transaction.{expand_transaction, expand_from}
use noto.Tests.Saving.{opened_file, file, edit_units, same_envelope, edit_saved, edit_is_saved}
use noto.Serialize.{Serialized}
use noto.Tests.Disk.{
  Disk, content, fingerprint_of, small_platform, small_primitives, small_primitives-FileSystem,
}
use noto.LineEndings.{detect_line_ending, to_lf}
use noto.Revision.BlockId.{make_block_id}
use noto.FileTruth.Store.Opening.{
  OpenReply, open_file, open_parsed, closed, opened, adopt_journal, unless_failed, check_recovery,
  check_journal, check_orphans, clean_temps, clean_owned, internal_temps, remove_temps, remove_all,
  after_removals, unprotected, state_after, reply_opened, reply_with,
}
use noto.FileTruth.Store.Opening.Answers.{Answers, open_file-Answers}
use noto.FileTruth.Store.Recovering.{recover}
use noto.FileTruth.Store.Recovering.Outcome.{recover-Reported}
use noto.FileTruth.Store.Saving.Phases.{Distinct}
use noto.FileTruth.Node.{Capabilities, node_platform}
use noto.FileTruth.Node.Atomic.{save_atomic}
use noto.FileTruth.Store.History.{
  IsConsistent, new_store, perform, opening, saving, began, performed, elsewhere,
}
use noto.FileTruth.Store.History.Whole.{History-IsConsistent}

abbrev note : Text
note = codes "note.md"

abbrev open_store : Store
open_store = record {
  document = some opened_file;
  document_id = opened_file.document_id;
  accepted_path = some note;
  accepted_fingerprint = some (fingerprint_of note file);
  accepted_missing = false;
  accepted_mode = 420;
  editor_revision = 0;
  recovery = none;
  recovery_blocked = false;
  transaction_active = false;
  watcher_generation = 1;
  state = is_opened;
  last_outcome = none;
}

abbrev cell_of : Disk → Cell Disk
cell_of w = record { store = open_store; world = w; stage = before_temp_write; temp_handle = none }

abbrev edit_wire : TransactionWire
edit_wire = blocks (record {
  version = 3;
  document_id = opened_file.document_id;
  revision_id = opened_file.revision_id;
  units = map (λ u. plain u) edit_units;
  envelope = same_envelope;
})

abbrev edit_candidate : EditCandidate
edit_candidate = record {
  save_token = record {
    document_revision_id = opened_file.revision_id;
    editor_revision = 0;
    fingerprint = fingerprint_of note file;
  };
  transaction = edit_wire;
}

abbrev as_opened : Cell Disk
as_opened = cell_of ((note, file) ∷ [])

abbrev changed_since : Cell Disk
changed_since = cell_of ((note, codes "theirs") ∷ [])

save-Reported_example :
    Reported open_store
      (save small_platform (codes "1") edit_candidate as_opened).0
      (save small_platform (codes "1") edit_candidate as_opened).1.store
save-Reported_example = save-Reported small_platform (codes "1") edit_candidate as_opened

save_ends_example :
    (outcome : SaveOutcome) × ((save small_platform (codes "1") edit_candidate as_opened).0
      ≡ done outcome)
save_ends_example = save_ends small_platform (codes "1") edit_candidate as_opened

abbrev opened_as : Accepted
opened_as = record { document = opened_file; path = note; fingerprint = fingerprint_of note file }

edit_is_fresh : is_stale open_store opened_as edit_candidate ≡ false
unfolding is_stale same_fingerprint
edit_is_fresh = refl

edit_expands : expand_transaction edit_wire opened_file ≡ some noto.Tests.Saving.edit
unfolding expand_transaction expand_from
edit_expands = refl

edit_can_be_written : serialize_candidate small_platform opened_file edit_wire ≡ some edit_saved
unfolding serialize_candidate
edit_can_be_written = rw (edit_expands, serialize_candidate, edit_is_saved) refl

check_external_change-Noticed_example :
    Noticed open_store
      (check_external_change small_platform changed_since).0
      (check_external_change small_platform changed_since).1.store
check_external_change-Noticed_example = check_external_change-Noticed small_platform changed_since

reload-Reloads_example :
    Reloads open_store
      (reload small_platform changed_since).0
      (reload small_platform changed_since).1.store
reload-Reloads_example = reload-Reloads small_platform changed_since

save_copy-SameBase_example :
    SameBase open_store
      (save_copy small_platform (codes "2") edit_candidate (codes "copy.md") as_opened).1.store
save_copy-SameBase_example =
    save_copy-SameBase small_platform (codes "2") edit_candidate (codes "copy.md") as_opened

abbrev edit_saved_outcome : SavedOutcome
edit_saved_outcome = record {
  base = record { attempt_id = codes "1"; safe_stage = journal_complete };
  accepted = record {
    canonical_path = note;
    fingerprint = fingerprint_of note edit_saved.output_bytes;
    posix_mode = 420;
  };
  save_token = record {
    document_revision_id = edit_saved.document.revision_id;
    editor_revision = 1;
    fingerprint = fingerprint_of note edit_saved.output_bytes;
  };
  output_sha256 = edit_saved.output_sha256;
  document = to_wire edit_saved.document;
}

edit_succeeds :
    (save small_platform (codes "1") edit_candidate as_opened).0
    ≡ done (primary (saved edit_saved_outcome))
unfolding save with_lock ◌>>=◌ attempt catch save_locked save_accepted save_open is_stale
    same_fingerprint save_serialized try_save replace_file recovery_paths prepare publish verify
    commit after_publish accept_saved saved_outcome persist_journal cleanup_then after_cleanup
    lookup insert remove
edit_succeeds = rw (edit_can_be_written) refl

edit_tells_saved :
    accepted_save_outcome (primary (saved edit_saved_outcome)) ≡ some edit_saved_outcome
unfolding accepted_save_outcome
edit_tells_saved = refl

save_for_renderer-Sends_example :
    (reply : SaveReply) × (next : Document) × ((save_for_renderer small_platform
        (codes "1")
        edit_candidate
        as_opened).0
      ≡ done reply)
    × ((save_for_renderer small_platform (codes "1") edit_candidate as_opened).1.store.document
        ≡ some next)
    × (edit_saved_outcome.save_token.document_revision_id ≡ next.revision_id)
    × Sends opened_file next edit_saved_outcome reply
save_for_renderer-Sends_example =
    save_for_renderer-Sends small_platform (codes "1") edit_candidate as_opened opened_file
      (primary (saved edit_saved_outcome)) edit_saved_outcome refl refl edit_succeeds
      edit_tells_saved

abbrev initial : Text → ℕ
initial [] = 0
initial (c ∷ name) = c

abbrev linux : Capabilities
linux = record { preserves_posix_mode = true; can_hard_link = true }

abbrev node_disk : Platform Disk
node_disk = node_platform small_primitives small_platform linux

edit_is_apart : Distinct node_disk content (codes "1") opened_as
edit_is_apart = record {
  temp = λ h. omega (arith, ap initial h);
  payload = λ h. omega (arith, ap initial h);
  payload_temp = λ h. omega (arith, ap initial h);
  journal = λ h. omega (arith, ap initial h);
  journal_temp = λ h. omega (arith, ap initial h);
}

save_atomic_example :
    (content (save node_disk (codes "1") edit_candidate as_opened).1.world note
      ≡ content as_opened.world note)
    ⊎ ((out : Serialized) × (serialize_candidate node_disk opened_file edit_wire ≡ some out)
        × (content (save node_disk (codes "1") edit_candidate as_opened).1.world note
            ≡ some out.output_bytes))
save_atomic_example =
    save_atomic small_primitives small_platform content linux (codes "1") edit_candidate as_opened
      opened_as refl
      (small_primitives-FileSystem note (codes "temp:note.md1") (λ h. omega (arith, ap initial h)))
      edit_is_apart

recover-Reported_example :
    Reported open_store
      (recover small_platform (codes "3") as_opened).0
      (recover small_platform (codes "3") as_opened).1.store
recover-Reported_example = recover-Reported small_platform (codes "3") as_opened

abbrev open_reply : OpenReply
open_reply = record {
  path = note;
  document = to_wire opened_file;
  save_token = record {
    document_revision_id = opened_file.revision_id;
    editor_revision = 0;
    fingerprint = fingerprint_of note file;
  };
  recovery = none;
  initial_outcome = none;
}

note_opens : (open_file small_platform (codes "4") note as_opened).0 ≡ done open_reply
unfolding open_file open_parsed closed opened ◌>>=◌ attempt lookup parse_document detect_line_ending
    make_block_id to_lf load_journal adopt_journal unless_failed check_recovery check_journal
    check_orphans clean_temps clean_owned internal_temps remove_temps remove_all after_removals
    unprotected state_after reply_opened reply_with
note_opens = refl

open_file-Answers_example :
    Answers small_platform
      (codes "4")
      open_reply
      (open_file small_platform (codes "4") note as_opened).1.store
open_file-Answers_example =
    open_file-Answers small_platform (codes "4") note as_opened open_reply note_opens

-- A store whose file is opened; another hand then changes the file, and the editor saves.
abbrev just_made : Cell Disk
just_made = record {
  store = new_store opened_file.document_id;
  world = (note, file) ∷ [];
  stage = before_temp_write;
  temp_handle = none;
}

abbrev before_save : Cell Disk
before_save = record (perform small_platform (opening note) (codes "4") just_made) {
  world = (note, codes "theirs") ∷ [];
}

History-IsConsistent_example :
    IsConsistent small_platform.engine.host opened_file.document_id false
      (perform small_platform (saving edit_candidate) (codes "5") before_save).store
History-IsConsistent_example =
    History-IsConsistent small_platform opened_file.document_id
      (perform small_platform (saving edit_candidate) (codes "5") before_save)
      (performed (saving edit_candidate) (codes "5") before_save (
        elsewhere ((note, codes "theirs") ∷ [])
          (perform small_platform (opening note) (codes "4") just_made)
          (performed (opening note) (codes "4") just_made (began ((note, file) ∷ [])))))
