-- ===== src/FileTruth/Store.antt =====
-- The store of an open file, `FileTruthStoreV1` of src/main/file-truth/v1/file-truth-store.ts: its
-- state, and the steps that its operations are made of. The watcher is its generation; the logger and
-- the diagnostics are left out.
pub mod Steps
pub mod Saving
pub mod Copying
pub mod Rendering
pub mod Recovering
pub mod Opening
pub mod Triples
pub mod Quiet
pub mod History
pub mod Files
pub mod Watching
use noto.Common.{ℕ, Bool, Option, nat_eq, bool_eq, list_eq, Text}
use noto.Contracts.{Document, TransactionWire}
use noto.FileTruth.{FileFingerprint, Stage, SaveToken, SaveOutcome}
use noto.FileTruth.Platform.{Journal, Attempt, done, threw, Problem}

-- `FileTruthDiagnosticsV1.state`
pub data StoreState : Type 0 where
  is_closed is_opened is_saved has_conflict has_failed needs_recovery : StoreState

pub record Store : Type 0 where
  pub document : Option Document
  pub document_id : Text
  pub accepted_path : Option Text
  pub accepted_fingerprint : Option FileFingerprint
  pub accepted_missing : Bool
  pub accepted_mode : ℕ
  pub editor_revision : ℕ
  pub recovery : Option Journal
  pub recovery_blocked : Bool
  pub transaction_active : Bool
  pub watcher_generation : ℕ
  pub state : StoreState
  pub last_outcome : Option SaveOutcome

-- `FileTruthEditCandidateV1`; the transaction names its revision.
pub record EditCandidate : Type 0 where
  pub save_token : SaveToken
  pub transaction : TransactionWire

-- The store, the world, and the local variables of a save: the stage that was reached, and the
-- temporary file that is open.
pub record Cell (W : Type 0) : Type 0 where
  pub store : Store
  pub world : W
  pub stage : Stage
  pub temp_handle : Option Text

abbrev pub Step : Type 0 → Type 0 → Type 0
Step W A = Cell W → Attempt A × Cell W

module _ {W : Type 0} where
  infixl 5 ◌>>=◌ ◌>>◌
  abbrev pub pure : {A : Type 0} → A → Step W A
  pure a c = (done a, c)

  -- An error ends the steps; what was done stays done.
  unfoldable pub ◌>>=◌ : {A B : Type 0} → Step W A → (A → Step W B) → Step W B
  (m >>= f) c = elim (m c).0 [ done a ↦ f a (m c).1 | threw e ↦ (threw e, (m c).1) ]

  abbrev pub ◌>>◌ : {A B : Type 0} → Step W A → Step W B → Step W B
  m >> k = m >>= λ _. k

  abbrev pub in_world : {A : Type 0} → (W → Attempt A × W) → Step W A
  in_world f c = ((f c.world).0, record c { world = (f c.world).1 })

  abbrev pub change : (Store → Store) → Step W Unit
  change f c = (done tt, record c { store = f c.store })

  abbrev pub reach : Stage → Step W Unit
  reach stage c = (done tt, record c { stage = stage })

  abbrev pub hold : Option Text → Step W Unit
  hold handle c = (done tt, record c { temp_handle = handle })

  -- `try`: an error is an answer.
  unfoldable pub attempt : {A : Type 0} → Step W A → Step W (Attempt A)
  attempt m c = (done (m c).0, (m c).1)

  -- `try … catch`: the error is handled where it left off.
  unfoldable pub catch : {A : Type 0} → Step W A → (Problem → Step W A) → Step W A
  catch m handler c = elim (m c).0 [ done x ↦ (done x, (m c).1) | threw e ↦ handler e (m c).1 ]
