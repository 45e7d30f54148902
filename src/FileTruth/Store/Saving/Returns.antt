-- ===== src/FileTruth/Store/Saving/Returns.antt =====
-- A save always ends with an outcome.
use noto.Common.{
  ℕ, ◌≡◌, refl, inl, inr, Bool, true, false, ◌||◌, Option, none, some, List, [], if◌then◌else◌,
  is_some, nat_eq, bool_eq, list_eq, Text,
}
use noto.Serialize.{Serialized}
use noto.FileTruth.{
  SaveOutcome, primary, PrimaryOutcome, Stage, FailureStatus, stale_editor_revision,
}
use noto.FileTruth.Platform.{Platform, Journal, Attempt, done, Problem}
use noto.FileTruth.Store.{catch, Store, Cell, Step, EditCandidate, ◌>>=◌, attempt, pure, change}
use noto.FileTruth.Store.Steps.{
  existing, cleanup_failure, fail_with, fail_outcome, finish, serialize_candidate,
}
use noto.FileTruth.Store.Saving.{
  Accepted, accepted_of, is_stale, report, handle_problem, save_serialized, save_open,
  save_accepted, save_locked, with_lock, save, close_temp,
}
use noto.FileTruth.Store.Saving.Settled.{Attempt-cases}
use noto.FileTruth.Store.Saving.Carried.{existing_done, finish-Carries, cleanup_failure-Carries}

module _ {W : Type 0} where
  record Returns {A : Type 0} (m : Step W A) : Type 0 where
    returned : (c : Cell W) → (x : A) × ((m c).0 ≡ done x)

  bind-Returns :
      {A B : Type 0} (m : Step W A) (f : A → Step W B)
      → Returns m
      → ((x : A) → Returns (f x))
      → Returns (m >>= f)
  unfolding ◌>>=◌
  bind-Returns m f k l = record {
    returned = λ c.
        let (x, is) = k.returned c in
        let (y, there) = (l x).returned (m c).1 in (y, rw (is, ◌>>=◌) there);
  }

  pure-Returns : {A : Type 0} (x : A) → Returns (pure {W = W} x)
  pure-Returns x = record { returned = λ c. (x, refl) }

  change-Returns : (f : Store → Store) → Returns (change {W = W} f)
  change-Returns f = record { returned = λ c. (tt, refl) }

  attempt-Returns : {A : Type 0} (m : Step W A) → Returns (attempt m)
  unfolding attempt
  attempt-Returns m = record { returned = λ c. ((m c).0, refl) }

  here-Returns :
      {A : Type 0} (m : Cell W → Step W A) → ((c : Cell W) → Returns (m c)) → Returns (λ c. m c c)
  here-Returns m k = record { returned = λ c. (k c).returned c }

  if-Returns :
      {A : Type 0} (b : Bool) (m k : Step W A)
      → Returns m
      → Returns k
      → Returns (if b then m else k)
  if-Returns true m k x y = x
  if-Returns false m k x y = y

  catch-Returns :
      {A : Type 0} (m : Step W A) (handler : Problem → Step W A)
      → ((e : Problem) → Returns (handler e))
      → Returns (catch m handler)
  unfolding catch
  catch-Returns m handler k = record {
    returned = λ c. elim (Attempt-cases (m c).0) [
      | inl (x, is) ↦ (x, rw (is, catch) refl)
      | inr (e, is) ↦ let (x, there) = (k e).returned (m c).1 in (x, rw (is, catch) there)
    ];
  }

  option-Returns :
      {A : Type 0} (o : Option A) {m : Step W SaveOutcome} {f : A → Step W SaveOutcome}
      → Returns m
      → ((x : A) → Returns (f x))
      → Returns (elim o [ none ↦ m | some x ↦ f x ])
  option-Returns none k l = k
  option-Returns (some x) k l = l x

module _ {W : Type 0} (p : Platform W) (attempt_id : Text) where
  existing-Returns : (paths : List Text) → Returns (existing p paths)
  existing-Returns paths = record { returned = existing_done p paths }

  finish-Returns : (first : PrimaryOutcome) → Returns (finish p (primary first))
  finish-Returns first = record {
    returned = λ c. let (outcome, is, _) = (finish-Carries p first).carried c in (outcome, is);
  }

  cleanup_failure-Returns :
      (first : PrimaryOutcome) (residue : List Text) → Returns (cleanup_failure p first residue)
  cleanup_failure-Returns first residue = record {
    returned = λ c.
        let (outcome, is, _) = (cleanup_failure-Carries p first residue).carried c in (outcome, is);
  }

  fail_with-Returns :
      (status : FailureStatus) (stage : Stage) (recovery : Option Journal) (residue : List Text)
      → Returns (fail_with p status attempt_id stage recovery residue)
  unfolding fail_with
  fail_with-Returns status stage recovery residue =
      bind-Returns _ _ (change-Returns _) (λ x. pure-Returns _)

  fail_outcome-Returns :
      (status : FailureStatus) (stage : Stage) (recovery : Option Journal) (residue : List Text)
      → Returns (fail_outcome p status attempt_id stage recovery residue)
  fail_outcome-Returns status stage recovery residue =
      bind-Returns _ _ (fail_with-Returns status stage recovery residue) (λ first. pure-Returns _)

  module _ (a : Accepted) (out : Serialized) (mode : ℕ) where
    close_temp-Returns :
        (handle : Option Text) → Returns (close_temp p attempt_id a out mode handle)
    close_temp-Returns none = pure-Returns (done tt)
    close_temp-Returns (some handle) = attempt-Returns _

    report-Returns :
        (e : Problem) (close_failed : Bool) (loaded : Attempt (Option Journal))
        (residue : List Text)
        → Returns (report p attempt_id a out mode e close_failed loaded residue)
    unfolding report
    report-Returns e close_failed loaded residue = here-Returns _ (λ c.
        bind-Returns _ _ (change-Returns _) (λ x.
          bind-Returns _ _ (fail_with-Returns _ _ _ _) (λ first.
            if-Returns _ _ _ (cleanup_failure-Returns first residue) (finish-Returns first))))

    handle_problem-Returns : (e : Problem) → Returns (handle_problem p attempt_id a out mode e)
    unfolding handle_problem
    handle_problem-Returns e = here-Returns _ (λ c.
        bind-Returns _ _ (close_temp-Returns c.temp_handle) (λ closed.
          bind-Returns _ _ (attempt-Returns _) (λ loaded.
            bind-Returns _ _ (existing-Returns _) (λ residue. report-Returns e _ loaded residue))))

    save_serialized-Returns : Returns (save_serialized p attempt_id a out mode)
    unfolding save_serialized
    save_serialized-Returns = catch-Returns _ _ (λ e. handle_problem-Returns e)

  save_open-Returns :
      (a : Accepted) (candidate : EditCandidate) → Returns (save_open p attempt_id a candidate)
  unfolding save_open
  save_open-Returns a candidate = here-Returns _ (λ c.
      if-Returns (is_some c.store.recovery || c.store.recovery_blocked) _ _
        (bind-Returns _ _ (existing-Returns _) (λ residue. fail_outcome-Returns _ _ _ residue))
        (if-Returns (is_stale c.store a candidate) _ _ (finish-Returns (stale_editor_revision _)) (
          option-Returns (serialize_candidate p a.document candidate.transaction)
            (fail_outcome-Returns _ _ _ [])
            (λ out. save_serialized-Returns a out c.store.accepted_mode))))

  save_accepted-Returns :
      (candidate : EditCandidate) (a : Option Accepted)
      → Returns (save_accepted p attempt_id candidate a)
  unfolding save_accepted
  save_accepted-Returns candidate none = fail_outcome-Returns _ _ _ []
  save_accepted-Returns candidate (some a) = save_open-Returns a candidate

  save_locked-Returns : (candidate : EditCandidate) → Returns (save_locked p attempt_id candidate)
  unfolding save_locked
  save_locked-Returns candidate =
      here-Returns _ (λ c. save_accepted-Returns candidate (accepted_of c.store))

  with_lock-Returns : (m : Step W SaveOutcome) → Returns m → Returns (with_lock p attempt_id m)
  unfolding with_lock ◌>>=◌ attempt
  with_lock-Returns m k = record {
    returned = λ c. k.returned (record c { store = record c.store { transaction_active = true } });
  }

  save-Returns : (candidate : EditCandidate) → Returns (save p attempt_id candidate)
  unfolding save
  save-Returns candidate = here-Returns _ (λ c.
      if-Returns c.store.transaction_active _ _ (fail_outcome-Returns _ _ _ [])
        (with_lock-Returns _ (save_locked-Returns candidate)))

  -- A save ends with an outcome, whatever the platform answers and wherever it fails: no error gets
  -- past it.
  pub save_ends :
      (candidate : EditCandidate) (c : Cell W)
      → (outcome : SaveOutcome) × ((save p attempt_id candidate c).0 ≡ done outcome)
  save_ends candidate c = (save-Returns candidate).returned c
