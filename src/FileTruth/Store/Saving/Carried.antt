-- ===== src/FileTruth/Store/Saving/Carried.antt =====
-- What the last steps of a save report.
use noto.Common.{
  ap, refl, if◌then◌else◌, ◌≡◌, sym, ◌∙◌, Option, none, List, [], ◌∷◌, nat_eq, bool_eq, list_eq,
  Text,
}
use mathlib.Core.Path.{subst}
use noto.FileTruth.{
  OutcomeBase, Residue, SaveOutcome, primary, cleanup_failed, PrimaryOutcome, saved, copy_saved,
  external_conflict, stale_editor_revision, failure, SavedOutcome, accepted_save_outcome,
}
use noto.FileTruth.Platform.{Platform, Journal, Attempt, done, threw}
use noto.FileTruth.Store.{pure, ◌>>=◌, Cell, Step, attempt}
use noto.FileTruth.Store.Steps.{
  is_evidence, existing, cleanup_failure, after_cleanup, cleanup_then, finish,
}
use noto.FileTruth.Store.Saving.Settled.{Advanced, Keeps, Reports}

-- An outcome that did not replace the file.
abbrev pub NotSaved : PrimaryOutcome → Type 0
NotSaved first = accepted_save_outcome (primary first) ≡ none

module _ {W : Type 0} where
  -- A step that always ends, with an outcome that carries this one.
  pub record Carries (first : PrimaryOutcome) (m : Step W SaveOutcome) : Type 0 where
    pub carried :
        (c : Cell W)
        → (outcome : SaveOutcome) × ((m c).0 ≡ done outcome)
          × (accepted_save_outcome outcome ≡ accepted_save_outcome (primary first))

  pub Carries-Reports :
      (first : PrimaryOutcome) (m : Step W SaveOutcome)
      → NotSaved first
      → Carries first m
      → Keeps m
      → Reports m
  Carries-Reports first m other carries keeps = record {
    reported = λ c.
        let (outcome, is, same) = carries.carried c in
        rw (is) (
          subst (λ (o : Option SavedOutcome). Advanced c.store o (m c).1.store) (sym (same ∙ other))
            (keeps.kept c));
  }

module _ {W : Type 0} (p : Platform W) where
  pub finish-Carries : (first : PrimaryOutcome) → Carries first (finish p (primary first))
  unfolding ◌>>=◌
  finish-Carries first = record { carried = λ c. (primary first, refl, refl) }

  cleanup_failed_same :
      (base : OutcomeBase) (first : PrimaryOutcome) (residue : Residue)
      → accepted_save_outcome (cleanup_failed base first residue)
        ≡ accepted_save_outcome (primary first)
  unfolding accepted_save_outcome
  cleanup_failed_same base (saved o) residue = refl
  cleanup_failed_same base (copy_saved o) residue = refl
  cleanup_failed_same base (external_conflict o) residue = refl
  cleanup_failed_same base (stale_editor_revision o) residue = refl
  cleanup_failed_same base (failure o) residue = refl

  pub cleanup_failure-Carries :
      (first : PrimaryOutcome) (residue : List Text)
      → Carries first (cleanup_failure p first residue)
  unfolding cleanup_failure ◌>>=◌
  cleanup_failure-Carries first residue = record {
    carried = λ c. (_, refl, cleanup_failed_same _ first _);
  }

  pub bind_done :
      {A B : Type 0} (m : Step W A) (f : A → Step W B) (c : Cell W) (x : A)
      → (m c).0 ≡ done x
      → (m >>= f) c ≡ f x (m c).1
  unfolding ◌>>=◌
  bind_done m f c x is = rw (is, ◌>>=◌) refl

  -- Looking for evidence does not fail.
  pub existing_done :
      (paths : List Text) (c : Cell W) → (found : List Text) × ((existing p paths c).0 ≡ done found)
  unfolding existing ◌>>=◌ attempt
  existing_done [] c = ([], refl)
  existing_done (path ∷ paths) c =
      let after = record c { world = (p.exists path c.world).1 } in
      let there = (p.exists path c.world).0 in
      let (found, is) = existing_done paths after in
      (
        (if is_evidence p there then path ∷ found else found),
        ap (λ r. r.0)
            (bind_done (existing p paths)
              (λ rest. pure (if is_evidence p there then path ∷ rest else rest)) after found is),
      )

  -- After steps that do not fail.
  after_done-Carries :
      {A : Type 0} (first : PrimaryOutcome) (m : Step W A) (f : A → Step W SaveOutcome)
      → ((c : Cell W) → (x : A) × ((m c).0 ≡ done x))
      → ((x : A) → Carries first (f x))
      → Carries first (m >>= f)
  unfolding ◌>>=◌
  after_done-Carries first m f ends k = record {
    carried = λ c.
        let (x, is) = ends c in
        let (outcome, there, same) = (k x).carried (m c).1 in (outcome, rw (is, ◌>>=◌) there, same);
  }

  after_cleanup-Carries :
      (first : PrimaryOutcome) (journal : Journal) (cleaned : Attempt Unit)
      → Carries first (after_cleanup p first journal cleaned)
  unfolding after_cleanup
  after_cleanup-Carries first journal (done x) =
      after_done-Carries first _ _ (λ c. (tt, refl)) (λ x. finish-Carries first)
  after_cleanup-Carries first journal (threw e) =
      after_done-Carries first _ _ (existing_done _)
        (λ residue. cleanup_failure-Carries first residue)

  pub cleanup_then-Carries :
      (first : PrimaryOutcome) (journal : Journal) → Carries first (cleanup_then p first journal)
  unfolding cleanup_then attempt
  cleanup_then-Carries first journal =
      after_done-Carries first _ _ (λ c. (_, refl))
        (λ cleaned. after_cleanup-Carries first journal cleaned)
