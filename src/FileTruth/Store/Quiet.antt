-- ===== src/FileTruth/Store/Quiet.antt =====
-- Steps that leave the store as it is, whatever they do to the world.
use noto.Common.{
  ◌≡◌, refl, sym, ◌∙◌, inl, inr, Bool, true, false, Option, none, some, List, [], ◌∷◌,
  if◌then◌else◌, nat_eq, bool_eq, list_eq, Text,
}
use mathlib.Core.Path.{subst}
use noto.FileTruth.Platform.{Attempt, Platform}
use noto.FileTruth.Store.{Store, Cell, Step, pure, ◌>>=◌, in_world, attempt}
use noto.FileTruth.Store.Steps.{existing, load_journal}
use noto.FileTruth.Store.Triples.{Triple}
use noto.FileTruth.Store.Saving.Settled.{Attempt-cases}

module _ {W : Type 0} where
  -- A step that leaves the store as it is.
  pub record Quiet {A : Type 0} (m : Step W A) : Type 0 where
    pub quiet : (c : Cell W) → (m c).1.store ≡ c.store

  pub bind-Quiet :
      {A B : Type 0} (m : Step W A) (f : A → Step W B)
      → Quiet m
      → ((x : A) → Quiet (f x))
      → Quiet (m >>= f)
  unfolding ◌>>=◌
  bind-Quiet m f k l = record {
    quiet = λ c. elim (Attempt-cases (m c).0) [
      | inl (x, is) ↦ rw (is, ◌>>=◌) ((l x).quiet (m c).1 ∙ k.quiet c)
      | inr (e, is) ↦ rw (is, ◌>>=◌) (k.quiet c)
    ];
  }

  pub in_world-Quiet : {A : Type 0} (f : W → Attempt A × W) → Quiet (in_world f)
  in_world-Quiet f = record { quiet = λ c. refl }

  pub pure-Quiet : {A : Type 0} (x : A) → Quiet (pure {W = W} x)
  pure-Quiet x = record { quiet = λ c. refl }

  pub attempt-Quiet : {A : Type 0} (m : Step W A) → Quiet m → Quiet (attempt m)
  unfolding attempt
  attempt-Quiet m k = record { quiet = k.quiet }

  pub if-Quiet :
      {A : Type 0} (b : Bool) (m k : Step W A) → Quiet m → Quiet k → Quiet (if b then m else k)
  if-Quiet true m k x y = x
  if-Quiet false m k x y = y

  -- What holds of the store still does, whatever the answer.
  pub Quiet-Triple :
      {A : Type 0} (I : Store → Type 0) (m : Step W A)
      → Quiet m
      → Triple (λ c. I c.store) m (λ x c. I c.store) (λ c. I c.store)
  Quiet-Triple I m k = record {
    holds = λ c h. elim (Attempt-cases (m c).0) [
      | inl (x, is) ↦ rw (is) (subst I (sym (k.quiet c)) h)
      | inr (e, is) ↦ rw (is) (subst I (sym (k.quiet c)) h)
    ];
  }

module _ {W : Type 0} (p : Platform W) where
  pub existing-Quiet : (paths : List Text) → Quiet (existing p paths)
  unfolding existing
  existing-Quiet [] = pure-Quiet []
  existing-Quiet (path ∷ paths) =
      bind-Quiet _ _ (attempt-Quiet _ (in_world-Quiet _))
        (λ there. bind-Quiet _ _ (existing-Quiet paths) (λ rest. pure-Quiet _))

  pub load_journal-Quiet : (path : Option Text) → Quiet (load_journal p path)
  unfolding load_journal
  load_journal-Quiet none = pure-Quiet none
  load_journal-Quiet (some path) = bind-Quiet _ _ (in_world-Quiet _) (λ there.
      if-Quiet there _ _ (bind-Quiet _ _ (in_world-Quiet _) (λ bytes. record { quiet = λ c. refl }))
        (pure-Quiet none))
