-- ===== src/FileTruth/Store/Saving/Kept.antt =====
-- The steps of a save before the file is replaced leave alone what the editor's work is based on.
use noto.Common.{refl, none, some, Text, List, [], ◌∷◌, Option, nat_eq, bool_eq, list_eq}
use noto.FileTruth.{SaveOutcome, PrimaryOutcome, Stage, FailureStatus, FileFingerprint}
use noto.FileTruth.Platform.{Platform, Journal, Attempt, done, threw}
use noto.FileTruth.Store.{Step, ◌>>◌}
use noto.FileTruth.Store.Saving.Settled.{
  change-Keeps, reach-Keeps, here-Keeps, if-Keeps, bind-Keeps, attempt-Keeps, SameBase-refl,
  pure-Keeps, in_world-Keeps, Keeps,
}
use noto.FileTruth.Store.Steps.{
  after_cleanup, cleanup_then, cleanup_failure, remove_if, finish, fail_with, conflict,
  persist_stage, load_journal, existing, persist_journal, journal_at,
}

module _ {W : Type 0} (p : Platform W) where
  -- One step and then another.
  pub then-Keeps : {A B : Type 0} {m : Step W A} {k : Step W B} → Keeps m → Keeps k → Keeps (m >> k)
  then-Keeps x y = bind-Keeps _ _ x (λ a. y)

  pub existing-Keeps : (paths : List Text) → Keeps (existing p paths)
  unfolding existing
  existing-Keeps [] = pure-Keeps []
  existing-Keeps (path ∷ paths) =
      bind-Keeps _ _ (attempt-Keeps _ (in_world-Keeps _))
        (λ there. bind-Keeps _ _ (existing-Keeps paths) (λ rest. pure-Keeps _))

  pub persist_journal-Keeps : (journal : Journal) → Keeps (persist_journal p journal)
  unfolding persist_journal
  persist_journal-Keeps journal =
      then-Keeps (then-Keeps (in_world-Keeps _) (in_world-Keeps _))
        (change-Keeps _ (λ s. (refl, refl, refl, refl, refl)))

  pub persist_stage-Keeps :
      (journal : Journal) (stage : Stage) → Keeps (persist_stage p journal stage)
  persist_stage-Keeps journal stage =
      then-Keeps (reach-Keeps stage) (persist_journal-Keeps (journal_at p journal stage))

  pub load_journal-Keeps : (path : Option Text) → Keeps (load_journal p path)
  unfolding load_journal
  load_journal-Keeps none = pure-Keeps none
  load_journal-Keeps (some path) = bind-Keeps _ _ (in_world-Keeps _) (λ there.
      if-Keeps there _ _
        (bind-Keeps _ _ (in_world-Keeps _) (λ bytes. record { kept = λ c. SameBase-refl c.store }))
        (pure-Keeps none))

  pub fail_with-Keeps :
      (status : FailureStatus) (attempt_id : Text) (stage : Stage) (recovery : Option Journal)
      (residue : List Text)
      → Keeps (fail_with p status attempt_id stage recovery residue)
  unfolding fail_with
  fail_with-Keeps status attempt_id stage recovery residue =
      then-Keeps (change-Keeps _ (λ s. (refl, refl, refl, refl, refl))) (pure-Keeps _)

  pub conflict-Keeps :
      (attempt_id : Text) (stage : Stage) (accepted : FileFingerprint)
      (current : Option FileFingerprint)
      → Keeps (conflict p attempt_id stage accepted current)
  unfolding conflict
  conflict-Keeps attempt_id stage accepted current =
      then-Keeps (change-Keeps _ (λ s. (refl, refl, refl, refl, refl))) (pure-Keeps _)

  pub finish-Keeps : (outcome : SaveOutcome) → Keeps (finish p outcome)
  finish-Keeps outcome =
      then-Keeps (change-Keeps _ (λ s. (refl, refl, refl, refl, refl))) (pure-Keeps _)

  pub cleanup_failure-Keeps :
      (first : PrimaryOutcome) (residue : List Text) → Keeps (cleanup_failure p first residue)
  unfolding cleanup_failure
  cleanup_failure-Keeps first residue =
      here-Keeps _
        (λ c. then-Keeps (change-Keeps _ (λ s. (refl, refl, refl, refl, refl))) (finish-Keeps _))

  remove_if-Keeps : (path : Option Text) → Keeps (remove_if p path)
  remove_if-Keeps none = pure-Keeps tt
  remove_if-Keeps (some path) = in_world-Keeps _

  after_cleanup-Keeps :
      (first : PrimaryOutcome) (journal : Journal) (cleaned : Attempt Unit)
      → Keeps (after_cleanup p first journal cleaned)
  unfolding after_cleanup
  after_cleanup-Keeps first journal (done x) =
      then-Keeps (change-Keeps _ (λ s. (refl, refl, refl, refl, refl))) (finish-Keeps _)
  after_cleanup-Keeps first journal (threw e) =
      bind-Keeps _ _ (existing-Keeps _) (λ residue. cleanup_failure-Keeps first residue)

  pub cleanup_then-Keeps :
      (first : PrimaryOutcome) (journal : Journal) → Keeps (cleanup_then p first journal)
  unfolding cleanup_then
  cleanup_then-Keeps first journal =
      bind-Keeps _ _
        (attempt-Keeps _ (
          then-Keeps (then-Keeps (remove_if-Keeps journal.published.temp_path) (in_world-Keeps _))
            (in_world-Keeps _)))
        (λ cleaned. after_cleanup-Keeps first journal cleaned)
