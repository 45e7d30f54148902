-- ===== src/FileTruth/Store/Saving/Atomic.antt =====
-- A save replaces the file as a whole or leaves it alone.
use noto.Common.{
  ℕ, ◌≡◌, refl, ◌⊎◌, inl, inr, Bool, true, false, ◌||◌, Option, none, some, List, [], if◌then◌else◌,
  is_some, nat_eq, bool_eq, list_eq, Text,
}
use noto.Serialize.{Serialized}
use noto.FileTruth.{
  FailureStatus, serialization_failed, PrimaryOutcome, before_temp_write, FileFingerprint,
  AcceptedFileIdentity, Stage,
}
use noto.FileTruth.Platform.{
  Journal, Attempt, done, threw, Problem, Platform, Replacement, replaced, conflicted,
}
use noto.FileTruth.Store.{Cell, Step, EditCandidate, ◌>>=◌, attempt}
use noto.FileTruth.Store.Steps.{fail_with, serialize_candidate}
use noto.FileTruth.Store.Triples.{
  Post, Triple, Stays, bind-Triple, then-Triple, catch-Triple, weaken-Triple, attempt-Stays,
  here-Triple, if-Triple,
}
use noto.FileTruth.Store.Files.{
  Files, Pair, On, calm-Stays, pure-Stays, change-Stays, hold-Stays, reach-Stays, existing-Stays,
  load_journal-Stays, fail_with-Stays, fail_outcome-Stays, conflict-Stays, finish-Stays,
  cleanup_failure-Stays, cleanup_then-Stays,
}
use noto.FileTruth.Store.Saving.{
  fail_outcome, cleanup_then, Accepted, accepted_of, recovery_paths, commit, after_publish,
  replace_file, try_save, close_temp, report, handle_problem, save_serialized, save_open,
  save_accepted, save_locked, with_lock, save, is_stale,
}
use noto.FileTruth.Store.Saving.Phases.{
  temp_beside, Distinct, AfterPublish, prepare-Triple, publish-Triple, verify-Stays,
}

module _ {W : Type 0} (p : Platform W) (content : W → Text → Option (List ℕ))
    (attempt_id : Text) where
  abbrev beside : Accepted → Text
  beside a = temp_beside p content attempt_id a

  any-Post :
      {A : Type 0} (P : Cell W → Type 0) (r : Attempt A) (c : Cell W) → Post (λ x. P) P r c → P c
  any-Post P (done x) c h = h
  any-Post P (threw e) c h = h

  either_way :
      {A : Type 0} (b : Bool) (m k : Step W A) (c : Cell W) (P : Cell W → Type 0)
      → P (m c).1
      → P (k c).1
      → P ((if b then m else k) c).1
  either_way true m k c P x y = x
  either_way false m k c P x y = y

  module _ (a : Accepted) (files : Files p content a.path (beside a))
      (distinct : Distinct p content attempt_id a) where
    abbrev On_ : Pair p content a.path (beside a) → Cell W → Type 0
    On_ F = On p content a.path (beside a) F

    module _ (out : Serialized) (mode : ℕ) (old : Option (List ℕ)) where
      abbrev IsOld : Cell W → Type 0
      IsOld = On_ (λ x y. x ≡ old)

      abbrev IsNew : Cell W → Type 0
      IsNew = On_ (λ x y. x ≡ some out.output_bytes)

      abbrev IsWhole : Cell W → Type 0
      IsWhole = On_ (λ x y. (x ≡ old) ⊎ (x ≡ some out.output_bytes))

      old_to_whole : (c : Cell W) → IsOld c → IsWhole c
      old_to_whole c h = inl h

      new_to_whole : (c : Cell W) → IsNew c → IsWhole c
      new_to_whole c h = inr h

      -- What the cleanup removes is not the original.
      clean-Stays :
          (G : Option (List ℕ) → Type 0) (first : PrimaryOutcome) (recreating : Bool)
          → Stays
              (On_ (λ x y. G x))
              (cleanup_then p first (recovery_paths p attempt_id a out mode recreating))
      unfolding recovery_paths
      clean-Stays G first recreating =
          cleanup_then-Stays p content a.path (beside a) files G first _ distinct.temp
            distinct.payload distinct.journal

      commit-Stays :
          (recreating : Bool) (identity : AcceptedFileIdentity)
          → Stays IsNew (
              commit p attempt_id a out mode
                (recovery_paths p attempt_id a out mode recreating)
                identity)
      unfolding commit recovery_paths
      commit-Stays recreating identity = here-Triple _ (λ c.
          then-Triple
            (change-Stays p content a.path (beside a) (λ x y. x ≡ some out.output_bytes) _)
            (cleanup_then-Stays p content a.path (beside a) files (λ x. x ≡ some out.output_bytes) _
              _ distinct.temp distinct.payload distinct.journal))

      after_publish-Triple :
          (recreating : Bool) (r : Replacement)
          → Triple
              (AfterPublish p content attempt_id a files distinct out mode old r)
              (after_publish p attempt_id a out mode recreating
                (recovery_paths p attempt_id a out mode recreating)
                r)
              (λ x. IsWhole)
              IsWhole
      unfolding after_publish AfterPublish
      after_publish-Triple recreating replaced =
          weaken-Triple (λ c h. h) (λ x. new_to_whole) new_to_whole
            (bind-Triple _ _
              (verify-Stays p content attempt_id a files distinct out mode old recreating)
              (λ identity. commit-Stays recreating identity))
      after_publish-Triple recreating (conflicted current) =
          weaken-Triple (λ c h. h) (λ x. old_to_whole) old_to_whole
            (then-Triple (change-Stays p content a.path (beside a) (λ x y. x ≡ old) _) (
              bind-Triple _ _
                (conflict-Stays p content a.path (beside a) files (λ x y. x ≡ old) _ _ _ _)
                (λ first. clean-Stays (λ x. x ≡ old) first recreating)))

      replace_file-Triple :
          (current : Option FileFingerprint)
          → Triple IsOld (replace_file p attempt_id a out mode current) (λ x. IsWhole) IsWhole
      unfolding replace_file
      replace_file-Triple current = here-Triple _ (λ c.
          if-Triple _ _ _
            (weaken-Triple (λ d h. h) (λ x. old_to_whole) old_to_whole
              (bind-Triple _ _
                (conflict-Stays p content a.path (beside a) files (λ x y. x ≡ old) _ _ _ _)
                (λ first. finish-Stays p content a.path (beside a) files (λ x y. x ≡ old) _)))
            (bind-Triple _ _
              (then-Triple
                (weaken-Triple (λ d h. h) (λ x d h. h) old_to_whole
                  (prepare-Triple p content attempt_id a files distinct out mode old _))
                (publish-Triple p content attempt_id a files distinct out mode old _))
              (λ r. after_publish-Triple _ r)))

      try_save-Triple : Triple IsOld (try_save p attempt_id a out mode) (λ x. IsWhole) IsWhole
      unfolding try_save
      try_save-Triple =
          bind-Triple _ _
            (weaken-Triple (λ c h. h) (λ x c h. h) old_to_whole
              (then-Triple
                (then-Triple
                  (reach-Stays p content a.path (beside a) (λ x y. x ≡ old) before_temp_write)
                  (hold-Stays p content a.path (beside a) (λ x y. x ≡ old) none))
                (calm-Stays p content a.path (beside a) (λ x y. x ≡ old) _ files.fingerprint)))
            (λ current. replace_file-Triple current)

      whole : Pair p content a.path (beside a)
      whole = λ x y. (x ≡ old) ⊎ (x ≡ some out.output_bytes)

      report-Stays :
          (e : Problem) (close_failed : Bool) (loaded : Attempt (Option Journal))
          (residue : List Text)
          → Stays IsWhole (report p attempt_id a out mode e close_failed loaded residue)
      unfolding report whole
      report-Stays e close_failed loaded residue = here-Triple _ (λ c.
          then-Triple (change-Stays p content a.path (beside a) whole _) (
            bind-Triple _ _ (fail_with-Stays p content a.path (beside a) files whole _ _ _ _ _)
              (λ first.
                if-Triple _ _ _
                  (cleanup_failure-Stays p content a.path (beside a) files whole first residue)
                  (finish-Stays p content a.path (beside a) files whole _))))

      close_temp-Stays :
          (handle : Option Text) → Stays IsWhole (close_temp p attempt_id a out mode handle)
      unfolding whole
      close_temp-Stays none = pure-Stays p content a.path (beside a) whole (done tt)
      close_temp-Stays (some handle) =
          attempt-Stays _ (calm-Stays p content a.path (beside a) whole _ (files.close handle))

      handle_problem-Stays :
          (e : Problem) → Stays IsWhole (handle_problem p attempt_id a out mode e)
      unfolding handle_problem whole
      handle_problem-Stays e = here-Triple _ (λ c.
          bind-Triple _ _ (close_temp-Stays c.temp_handle) (λ closed.
            bind-Triple _ _
              (attempt-Stays _ (load_journal-Stays p content a.path (beside a) files whole _))
              (λ loaded.
                bind-Triple _ _ (existing-Stays p content a.path (beside a) files whole _)
                  (λ residue. report-Stays e _ loaded residue))))

      save_serialized-Triple :
          Triple IsOld (save_serialized p attempt_id a out mode) (λ x. IsWhole) IsWhole
      unfolding save_serialized
      save_serialized-Triple = catch-Triple _ _ try_save-Triple (λ e. handle_problem-Stays e)

    -- What a save may leave in the file.
    abbrev pub Either : EditCandidate → Option (List ℕ) → Cell W → Type 0
    Either candidate old c =
        (content c.world a.path ≡ old)
        ⊎ ((out : Serialized) × (serialize_candidate p a.document candidate.transaction ≡ some out)
            × (content c.world a.path ≡ some out.output_bytes))

    module _ (candidate : EditCandidate) (old : Option (List ℕ)) where
      abbrev IsBefore : Cell W → Type 0
      IsBefore = On_ (λ x y. x ≡ old)

      kept-Triple :
          {A : Type 0} {m : Step W A}
          → Stays IsBefore m
          → Triple IsBefore m (λ x. Either candidate old) (Either candidate old)
      kept-Triple k = weaken-Triple (λ c h. h) (λ x c h. inl h) (λ c h. inl h) k

      fail-Triple :
          (status : FailureStatus) (stage : Stage) (recovery : Option Journal) (residue : List Text)
          → Stays IsBefore (fail_outcome p status attempt_id stage recovery residue)
      fail-Triple status stage recovery residue =
          fail_outcome-Stays p content a.path (beside a) files (λ x y. x ≡ old) status attempt_id
            stage recovery residue

      made-Triple :
          (mode : ℕ) (out : Serialized)
          → serialize_candidate p a.document candidate.transaction ≡ some out
          → Triple IsBefore
              (save_serialized p attempt_id a out mode)
              (λ x. Either candidate old)
              (Either candidate old)
      made-Triple mode out made =
          let tells : (c : Cell W)
              → (content c.world a.path ≡ old) ⊎ (content c.world a.path ≡ some out.output_bytes)
              → Either candidate old c =
            λ c h. elim h [ inl x ↦ inl x | inr y ↦ inr (out, made, y) ] in
          weaken-Triple (λ c h. h) (λ x. tells) tells (save_serialized-Triple out mode old)

      candidate-Triple :
          (mode : ℕ) (o : Option Serialized)
          → serialize_candidate p a.document candidate.transaction ≡ o
          → Triple IsBefore
              (elim o [
                | none ↦ fail_outcome p serialization_failed attempt_id before_temp_write none []
                | some out ↦ save_serialized p attempt_id a out mode
              ])
              (λ x. Either candidate old)
              (Either candidate old)
      candidate-Triple mode none made = kept-Triple (fail-Triple _ _ none [])
      candidate-Triple mode (some out) made = made-Triple mode out made

      save_open-Triple :
          Triple IsBefore
            (save_open p attempt_id a candidate)
            (λ x. Either candidate old)
            (Either candidate old)
      unfolding save_open
      save_open-Triple = here-Triple _ (λ c.
          if-Triple (is_some c.store.recovery || c.store.recovery_blocked) _ _
            (kept-Triple (
              bind-Triple _ _ (existing-Stays p content a.path (beside a) files (λ x y. x ≡ old) _)
                (λ residue. fail-Triple _ _ _ residue)))
            (if-Triple (is_stale c.store a candidate) _ _
              (kept-Triple (finish-Stays p content a.path (beside a) files (λ x y. x ≡ old) _))
              (candidate-Triple c.store.accepted_mode _ refl)))

      save_accepted-Triple :
          (accepted : Option Accepted)
          → accepted ≡ some a
          → Triple IsBefore
              (save_accepted p attempt_id candidate accepted)
              (λ x. Either candidate old)
              (Either candidate old)
      unfolding save_accepted
      save_accepted-Triple accepted is = rw (is, save_accepted) save_open-Triple

      save_locked-Triple :
          Triple
            (λ c. IsBefore c × (accepted_of c.store ≡ some a))
            (save_locked p attempt_id candidate)
            (λ x. Either candidate old)
            (Either candidate old)
      unfolding save_locked
      save_locked-Triple = record {
        holds = λ c h. (save_accepted-Triple (accepted_of c.store) h.1).holds c h.0;
      }

  -- A save on a platform of these laws.
  pub save_whole :
      (candidate : EditCandidate) (c : Cell W) (a : Accepted)
      → accepted_of c.store ≡ some a
      → Files p content a.path (beside a)
      → Distinct p content attempt_id a
      → (content (save p attempt_id candidate c).1.world a.path ≡ content c.world a.path)
        ⊎ ((out : Serialized) × (serialize_candidate p a.document candidate.transaction ≡ some out)
            × (content (save p attempt_id candidate c).1.world a.path ≡ some out.output_bytes))
  unfolding save with_lock ◌>>=◌ attempt fail_with
  save_whole candidate c a is files distinct =
      let locked = record c { store = record c.store { transaction_active = true } } in
      let Ends : Cell W → Type 0 = Either a files distinct candidate (content c.world a.path) in
      either_way c.store.transaction_active _ _ c Ends (inl refl) (
        any-Post Ends (save_locked p attempt_id candidate locked).0
          (save_locked p attempt_id candidate locked).1
          ((save_locked-Triple a files distinct candidate (content c.world a.path)).holds locked
            (refl, is)))
