-- ===== src/FileTruth/Store/Saving/Told.antt =====
-- Steps that tell what the store did: the ends that the operations of the store share.
use noto.Common.{
  Option, if◌then◌else◌, List, Bool, true, false, refl, sym, nat_eq, bool_eq, list_eq, Text,
}
use mathlib.Core.Path.{subst}
use mathlib.Core.Option.{Option}
use noto.FileTruth.{
  SaveOutcome, primary, PrimaryOutcome, external_conflict, failure, FailureOutcome,
  ExternalConflict, SavedOutcome, Stage, FailureStatus, FileFingerprint, accepted_save_outcome,
}
use noto.FileTruth.Platform.{Platform, Journal}
use noto.FileTruth.Store.{change, ◌>>◌, Store, Step, ◌>>=◌, pure, attempt}
use noto.FileTruth.Store.Steps.{cleanup_then, fail_with, fail_outcome, conflict, finish}
use noto.FileTruth.Store.Saving.Carried.{
  NotSaved, Carries-Reports, finish-Carries, cleanup_then-Carries,
}
use noto.FileTruth.Store.Saving.Settled.{
  Reported-then, Advanced, Advanced-then, Reported-after, Keeps, Reports, pure-Keeps, change-Keeps,
}
use noto.FileTruth.Store.Saving.{with_lock, start_watcher}
use noto.FileTruth.Store.Saving.Kept.{finish-Keeps, cleanup_then-Keeps}

module _ {W : Type 0} (p : Platform W) (attempt_id : Text) where
  pub finish-Reports :
      (first : PrimaryOutcome) → NotSaved first → Reports (finish p (primary first))
  finish-Reports first other =
      Carries-Reports first _ other (finish-Carries p first) (finish-Keeps p _)

  -- A conflict is none of the outcomes that replace the file.
  pub conflict-Reports :
      (stage : Stage) (accepted : FileFingerprint) (current : Option FileFingerprint)
      (f : PrimaryOutcome → Step W SaveOutcome)
      → ((x : ExternalConflict) → Reports (f (external_conflict x)))
      → Reports (conflict p attempt_id stage accepted current >>= f)
  unfolding conflict ◌>>=◌
  conflict-Reports stage accepted current f k = record {
    reported = λ c.
        let m = conflict p attempt_id stage accepted current in
        Reported-after c.store (m c).1.store ((m >>= f) c).1.store ((m >>= f) c).0
          (refl, refl, refl, refl, refl) ((k _).reported (m c).1);
  }

  pub fail_with-Reports :
      (status : FailureStatus) (stage : Stage) (recovery : Option Journal) (residue : List Text)
      (f : PrimaryOutcome → Step W SaveOutcome)
      → ((x : FailureOutcome) → Reports (f (failure x)))
      → Reports (fail_with p status attempt_id stage recovery residue >>= f)
  unfolding fail_with ◌>>=◌
  fail_with-Reports status stage recovery residue f k = record {
    reported = λ c.
        let m = fail_with p status attempt_id stage recovery residue in
        Reported-after c.store (m c).1.store ((m >>= f) c).1.store ((m >>= f) c).0
          (refl, refl, refl, refl, refl) ((k _).reported (m c).1);
  }

  pub pure-Reports :
      (first : PrimaryOutcome) → NotSaved first → Reports (pure {W = W} (primary first))
  pure-Reports first other =
      Carries-Reports first _ other (record { carried = λ c. (primary first, refl, refl) })
        (pure-Keeps _)

  pub fail_outcome-Reports :
      (status : FailureStatus) (stage : Stage) (recovery : Option Journal) (residue : List Text)
      → Reports (fail_outcome p status attempt_id stage recovery residue)
  unfolding accepted_save_outcome
  fail_outcome-Reports status stage recovery residue =
      fail_with-Reports status stage recovery residue _ (λ x. pure-Reports (failure x) refl)

  pub with_lock-Reports : (m : Step W SaveOutcome) → Reports m → Reports (with_lock p attempt_id m)
  unfolding with_lock ◌>>=◌ attempt
  with_lock-Reports m k = record {
    reported = λ c.
        let locked = record c { store = record c.store { transaction_active = true } } in
        let after = m locked in
        let free = record after.1.store { transaction_active = false } in
        Reported-then c.store after.1.store free after.0
          (Reported-after c.store locked.store after.1.store after.0 (refl, refl, refl, refl, refl)
            (k.reported locked))
          (refl, refl, refl, refl, refl);
  }

  -- The store takes over what was written, and the cleanup does not undo it.
  pub commit-Reports :
      (f : Store → Store) (first : Store → PrimaryOutcome) (journal : Journal)
      → ((s : Store) → Advanced s (accepted_save_outcome (primary (first s))) (f s))
      → Reports (λ c. (change f >> cleanup_then p (first c.store) journal) c)
  unfolding ◌>>=◌
  commit-Reports f first journal advances = record {
    reported = λ c.
        let here = record c { store = f c.store } in
        let (outcome, is, same) = (cleanup_then-Carries p (first c.store) journal).carried here in
        let kept = (cleanup_then-Keeps p (first c.store) journal).kept here in
        let after = (cleanup_then p (first c.store) journal here).1.store in
        rw (is) (
          subst (λ (o : Option SavedOutcome). Advanced c.store o after) (sym same)
            (Advanced-then c.store here.store after
              (accepted_save_outcome (primary (first c.store))) (advances c.store) kept));
  }

  -- Starting the watcher again, or not.
  pub restart-Keeps : (b : Bool) → Keeps (change {W = W} (λ s. if b then start_watcher s else s))
  restart-Keeps true = change-Keeps _ (λ s. (refl, refl, refl, refl, refl))
  restart-Keeps false = change-Keeps _ (λ s. (refl, refl, refl, refl, refl))
