-- ===== src/FileTruth/Store/History.antt =====
-- The life of a store, which is one open file: its operations, one after another, and what other hands
-- do to the world between them.
pub mod Steps
pub mod Saves
pub mod Copies
pub mod Recoveries
pub mod Openings
pub mod Watches
pub mod Whole
use noto.Common.{◌≡◌, Bool, true, false, Option, none, some, nat_eq, bool_eq, list_eq, Text}
use noto.Contracts.{Document}
use noto.Document.{Host}
use noto.Document.Named.{IsRevision}
use noto.FileTruth.{before_temp_write}
use noto.FileTruth.Platform.{Journal, Platform}
use noto.FileTruth.Store.{Store, EditCandidate, Cell, is_closed}
use noto.FileTruth.Store.Saving.{save}
use noto.FileTruth.Store.Copying.{save_copy}
use noto.FileTruth.Store.Recovering.{recover}
use noto.FileTruth.Store.Opening.{open_file, adopt_path}
use noto.FileTruth.Store.Watching.{check_external_change, reload}

-- The fields of a store that has just been made.
abbrev pub new_store : Text → Store
new_store document_id = record {
  document = none;
  document_id = document_id;
  accepted_path = none;
  accepted_fingerprint = none;
  accepted_missing = false;
  accepted_mode = 0;
  editor_revision = 0;
  recovery = none;
  recovery_blocked = false;
  transaction_active = false;
  watcher_generation = 0;
  state = is_closed;
  last_outcome = none;
}

pub data Operation : Type 0 where
  opening : Text → Operation
  saving : EditCandidate → Operation
  copying : EditCandidate → Text → Operation
  recovering looking reloading : Operation
  adopting : Text → Operation

module _ {W : Type 0} (p : Platform W) where
  -- What an operation leaves, whether it answers or fails. The text is the id of its attempt.
  abbrev pub perform : Operation → Text → Cell W → Cell W
  perform (opening path) attempt_id c = (open_file p attempt_id path c).1
  perform (saving candidate) attempt_id c = (save p attempt_id candidate c).1
  perform (copying candidate destination) attempt_id c =
      (save_copy p attempt_id candidate destination c).1
  perform recovering attempt_id c = (recover p attempt_id c).1
  perform looking attempt_id c = (check_external_change p c).1
  perform reloading attempt_id c = (reload p c).1
  perform (adopting path) attempt_id c = record c { store = (adopt_path path c.store).1 }

  -- The world may be any other at any time between two operations.
  pub data History (document_id : Text) : Cell W → Type 0 where
    began :
        (w : W)
        → History document_id (record {
          store = new_store document_id;
          world = w;
          stage = before_temp_write;
          temp_handle = none;
        })
    performed :
        (operation : Operation) (attempt_id : Text) (c : Cell W)
        → History document_id c
        → History document_id (perform operation attempt_id c)
    elsewhere :
        (w : W) (c : Cell W) → History document_id c → History document_id (record c { world = w })

-- A document that the store holds is a revision, under the store's own identity.
abbrev pub Owns : Host → Text → Option Document → Type 0
Owns host id none = Unit
Owns host id (some d) = (d.document_id ≡ id) × IsRevision host d

-- A record to recover bars saving.
abbrev pub Bars : Option Journal → Bool → Type 0
Bars none blocked = Unit
Bars (some journal) blocked = blocked ≡ true

abbrev pub IsConsistent : Host → Text → Bool → Store → Type 0
IsConsistent host id active s =
    (s.document_id ≡ id)
    × (s.transaction_active ≡ active)
    × Owns host id s.document
    × Bars s.recovery s.recovery_blocked
