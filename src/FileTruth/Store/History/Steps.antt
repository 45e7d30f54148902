-- ===== src/FileTruth/Store/History/Steps.antt =====
-- The steps that the operations share leave a store consistent.
use noto.Common.{
  if◌then◌else◌, Bool, ◌≡◌, inl, inr, refl, true, false, Option, none, some, List, nat_eq, bool_eq,
  list_eq, Text,
}
use noto.Document.{Host}
use noto.FileTruth.{SaveOutcome, PrimaryOutcome, Stage, FailureStatus, FileFingerprint}
use noto.FileTruth.Platform.{Platform, Journal, Attempt, done, threw}
use noto.FileTruth.Store.{
  ◌>>◌, Store, Cell, Step, pure, ◌>>=◌, in_world, change, reach, hold, attempt,
}
use noto.FileTruth.Store.Triples.{
  weaken-Triple, Post, Stays, bind-Triple, then-Triple, here-Triple, attempt-Stays,
}
use noto.FileTruth.Store.Quiet.{Quiet, Quiet-Triple, existing-Quiet}
use noto.FileTruth.Store.Steps.{
  after_cleanup, cleanup_then, cleanup_failure, remove_if, finish, fail_with, fail_outcome,
  conflict, persist_stage, persist_journal, journal_at,
}
use mathlib.Core.Path.{subst}
use noto.FileTruth.Store.Saving.{start_watcher, with_lock, Accepted, accepted_of}
use noto.FileTruth.Store.Watching.Noticed.{accepted_cases}
use noto.FileTruth.Store.History.{Owns, IsConsistent, Bars}

pub true-Bars : (recovery : Option Journal) → Bars recovery true
true-Bars none = tt
true-Bars (some journal) = refl

pub accepted-Owns :
    (host : Host) (id : Text) (s : Store) (a : Accepted)
    → Owns host id s.document
    → accepted_of s ≡ some a
    → Owns host id (some a.document)
accepted-Owns host id s a own is = elim (accepted_cases s) [
  | inl none_is ↦ absurd (cc (none_is, is))
  | inr (b, some_is, holds) ↦
      let same : b ≡ a = cc (some_is, is) in
      subst (λ (x : Accepted). Owns host id (some x.document)) same
        (subst (Owns host id) holds.0 own)
]

pub record Sound {W : Type 0} (host : Host) (id : Text) (active : Bool) (c : Cell W) : Type 0 where
  pub sound : IsConsistent host id active c.store

module _ {W : Type 0} {host : Host} {id : Text} {active : Bool} where
  pub change-Sound :
      (f : Store → Store)
      → ((s : Store) → IsConsistent host id active s → IsConsistent host id active (f s))
      → Stays (Sound host id active) (change {W = W} f)
  change-Sound f k = record { holds = λ c h. record { sound = k c.store h.sound } }

  -- The same, by what the store is at the time.
  pub change-at :
      {A : Type 0} (f : Store → Store) (k : Step W A) (c : Cell W)
      → IsConsistent host id active (f c.store)
      → Stays (Sound host id active) k
      → Post
          (λ x. Sound host id active)
          (Sound host id active)
          ((change f >> k) c).0
          ((change f >> k) c).1
  unfolding ◌>>=◌
  change-at f k c h x = x.holds (record c { store = f c.store }) (record { sound = h })

  pub Quiet-Sound : {A : Type 0} {m : Step W A} → Quiet m → Stays (Sound host id active) m
  Quiet-Sound {m = m} k =
      weaken-Triple (λ c h. h.sound) (λ x c h. record { sound = h }) (λ c h. record { sound = h })
        (Quiet-Triple (IsConsistent host id active) m k)

  -- What only the world, the stage or the open temporary file takes part in.
  pub world-Sound : {A : Type 0} (f : W → Attempt A × W) → Stays (Sound host id active) (in_world f)
  world-Sound f = Quiet-Sound (record { quiet = λ c. refl })

  pub pure-Sound : {A : Type 0} (x : A) → Stays (Sound host id active) (pure {W = W} x)
  pure-Sound x = Quiet-Sound (record { quiet = λ c. refl })

  pub reach-Sound : (stage : Stage) → Stays (Sound host id active) (reach {W = W} stage)
  reach-Sound stage = Quiet-Sound (record { quiet = λ c. refl })

  pub hold-Sound : (handle : Option Text) → Stays (Sound host id active) (hold {W = W} handle)
  hold-Sound handle = Quiet-Sound (record { quiet = λ c. refl })

  module _ (p : Platform W) where
    pub finish-Sound : (outcome : SaveOutcome) → Stays (Sound host id active) (finish p outcome)
    finish-Sound outcome = then-Triple (change-Sound _ (λ s h. h)) (pure-Sound _)

    pub fail_with-Sound :
        (status : FailureStatus) (attempt_id : Text) (stage : Stage) (recovery : Option Journal)
        (residue : List Text)
        → Stays (Sound host id active) (fail_with p status attempt_id stage recovery residue)
    unfolding fail_with
    fail_with-Sound status attempt_id stage recovery residue =
        then-Triple (change-Sound _ (λ s h. h)) (pure-Sound _)

    pub fail_outcome-Sound :
        (status : FailureStatus) (attempt_id : Text) (stage : Stage) (recovery : Option Journal)
        (residue : List Text)
        → Stays (Sound host id active) (fail_outcome p status attempt_id stage recovery residue)
    fail_outcome-Sound status attempt_id stage recovery residue =
        bind-Triple _ _ (fail_with-Sound status attempt_id stage recovery residue)
          (λ first. pure-Sound _)

    pub conflict-Sound :
        (attempt_id : Text) (stage : Stage) (accepted : FileFingerprint)
        (current : Option FileFingerprint)
        → Stays (Sound host id active) (conflict p attempt_id stage accepted current)
    unfolding conflict
    conflict-Sound attempt_id stage accepted current =
        then-Triple (change-Sound _ (λ s h. h)) (pure-Sound _)

    pub persist_journal-Sound :
        (journal : Journal) → Stays (Sound host id active) (persist_journal p journal)
    unfolding persist_journal
    persist_journal-Sound journal =
        then-Triple (then-Triple (world-Sound _) (world-Sound _))
          (change-Sound _ (λ s (a, b, c, d). (a, b, c, refl)))

    pub persist_stage-Sound :
        (journal : Journal) (stage : Stage)
        → Stays (Sound host id active) (persist_stage p journal stage)
    persist_stage-Sound journal stage =
        then-Triple (reach-Sound stage) (persist_journal-Sound (journal_at p journal stage))

    -- From here on nothing is saved.
    pub block-Sound :
        Stays (Sound host id active) (change {W = W} (λ s. record s { recovery_blocked = true }))
    block-Sound = change-Sound _ (λ s (a, b, c, d). (a, b, c, true-Bars s.recovery))

    -- The watcher has no part in it.
    pub watched-Sound :
        (again : Bool)
        → Stays (Sound host id active) (change {W = W} (λ s. if again then start_watcher s else s))
    watched-Sound true = change-Sound _ (λ s h. h)
    watched-Sound false = change-Sound _ (λ s h. h)

    pub cleanup_failure-Sound :
        (first : PrimaryOutcome) (residue : List Text)
        → Stays (Sound host id active) (cleanup_failure p first residue)
    unfolding cleanup_failure
    cleanup_failure-Sound first residue = here-Triple _ (λ c.
        then-Triple (change-Sound _ (λ s (a, b, c, d). (a, b, c, true-Bars s.recovery)))
          (finish-Sound _))

    remove_if-Sound : (path : Option Text) → Stays (Sound host id active) (remove_if p path)
    remove_if-Sound none = pure-Sound tt
    remove_if-Sound (some path) = world-Sound _

    after_cleanup-Sound :
        (first : PrimaryOutcome) (journal : Journal) (cleaned : Attempt Unit)
        → Stays (Sound host id active) (after_cleanup p first journal cleaned)
    unfolding after_cleanup
    after_cleanup-Sound first journal (done x) =
        then-Triple (change-Sound _ (λ s (a, b, c, d). (a, b, c, tt))) (finish-Sound _)
    after_cleanup-Sound first journal (threw e) =
        bind-Triple _ _ (Quiet-Sound (existing-Quiet p _))
          (λ residue. cleanup_failure-Sound first residue)

    pub cleanup_then-Sound :
        (first : PrimaryOutcome) (journal : Journal)
        → Stays (Sound host id active) (cleanup_then p first journal)
    unfolding cleanup_then
    cleanup_then-Sound first journal =
        bind-Triple _ _
          (attempt-Stays _ (
            then-Triple (then-Triple (remove_if-Sound journal.published.temp_path) (world-Sound _))
              (world-Sound _)))
          (λ cleaned. after_cleanup-Sound first journal cleaned)

-- What holds of the cell whatever the answer is.
into-Post :
    {W A : Type 0} (P : Cell W → Type 0) (r : Attempt A) (c : Cell W) → P c → Post (λ x. P) P r c
into-Post P (done x) c h = h
into-Post P (threw e) c h = h

out_of-Post :
    {W A : Type 0} (P : Cell W → Type 0) (r : Attempt A) (c : Cell W) → Post (λ x. P) P r c → P c
out_of-Post P (done x) c h = h
out_of-Post P (threw e) c h = h

-- A step that stays, seen from one cell.
pub after-Stays :
    {W A : Type 0} (P : Cell W → Type 0) (m : Step W A) (c : Cell W) → Stays P m → P c → P (m c).1
after-Stays P m c k h = out_of-Post P (m c).0 (m c).1 (k.holds c h)

-- Under the lock a transaction is active, and afterwards none is, whatever came of it.
pub with_lock-Sound :
    {W : Type 0} {host : Host} {id : Text} (p : Platform W) (attempt_id : Text)
    {m : Step W SaveOutcome}
    → Stays (Sound host id true) m
    → Stays (Sound host id false) (with_lock p attempt_id m)
unfolding with_lock ◌>>=◌ attempt
with_lock-Sound {host = host} {id = id} p attempt_id {m = m} k = record {
  holds = λ c h.
      let locked = record c { store = record c.store { transaction_active = true } } in
      let (a, b, d, e) = h.sound in
      let (a', b', d', e') =
        (after-Stays (Sound host id true) m locked k (record { sound = (a, refl, d, e) })).sound in
      into-Post (Sound host id false) (m locked).0 _ (record { sound = (a', refl, d', e') });
}
