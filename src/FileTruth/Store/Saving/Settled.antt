-- ===== src/FileTruth/Store/Saving/Settled.antt =====
-- What a save leaves in the store.
use noto.Common.{
  Bool, true, false, if◌then◌else◌, Option, Text, inl, inr, ◌⊎◌, ◌+◌, ◌≡◌, refl, sym, ap, ◌∙◌, none,
  some, nat_eq, bool_eq, list_eq,
}
use noto.Contracts.{Document}
use noto.Document.{to_wire}
use noto.FileTruth.Platform.{Attempt, done, threw, Problem}
use noto.FileTruth.{SaveOutcome, accepted_save_outcome, SavedOutcome, Stage}
use noto.FileTruth.Store.{
  catch, change, reach, hold, attempt, ◌>>=◌, pure, in_world, Store, Cell, Step,
}

-- What the editor's work is based on is still the same.
abbrev pub SameBase : Store → Store → Type 0
SameBase old new =
    (old.document ≡ new.document)
    × (old.accepted_path ≡ new.accepted_path)
    × (old.accepted_fingerprint ≡ new.accepted_fingerprint)
    × (old.accepted_mode ≡ new.accepted_mode)
    × (old.editor_revision ≡ new.editor_revision)

pub SameBase-refl : (s : Store) → SameBase s s
SameBase-refl s = (refl, refl, refl, refl, refl)

pub SameBase-trans : (a b c : Store) → SameBase a b → SameBase b c → SameBase a c
SameBase-trans a b c (p, q, r, s, t) (p', q', r', s', t') = (p ∙ p', q ∙ q', r ∙ r', s ∙ s', t ∙ t')

-- The store after a save: one revision further, with the fingerprint, the revision and the document
-- that the outcome names, if the file was replaced, and based on what it was otherwise.
abbrev pub Advanced : Store → Option SavedOutcome → Store → Type 0
Advanced old none new = SameBase old new
Advanced old (some o) new =
    (new.editor_revision ≡ old.editor_revision + 1)
    × (o.save_token.editor_revision ≡ new.editor_revision)
    × (new.accepted_fingerprint ≡ some o.save_token.fingerprint)
    × (new.accepted_path ≡ old.accepted_path)
    × ((d : Document) × (new.document ≡ some d)
        × (o.save_token.document_revision_id ≡ d.revision_id)
        × (o.document ≡ to_wire d))

pub Advanced-after :
    (a b c : Store) (o : Option SavedOutcome) → SameBase a b → Advanced b o c → Advanced a o c
Advanced-after a b c none same h = SameBase-trans a b c same h
Advanced-after a b c (some o) (_, path, _, _, revision) (r, t, f, p, d) =
    (r ∙ ap (λ n. n + 1) (sym revision), t, f, p ∙ sym path, d)

pub Advanced-then :
    (a b c : Store) (o : Option SavedOutcome) → Advanced a o b → SameBase b c → Advanced a o c
Advanced-then a b c none h same = SameBase-trans a b c h same
Advanced-then a b c (some o) (r, t, f, p, (d, is, id, wire))
      (document, path, fingerprint, _, revision) =
    (
      sym revision ∙ r,
      t ∙ revision,
      sym fingerprint ∙ f,
      sym path ∙ p,
      (d, sym document ∙ is, id, wire),
    )

pub Attempt-cases :
    {A : Type 0} (r : Attempt A) → ((x : A) × (r ≡ done x)) ⊎ ((e : Problem) × (r ≡ threw e))
Attempt-cases (done x) = inl (x, refl)
Attempt-cases (threw e) = inr (e, refl)

-- An outcome that tells what happened to the store, or an error that left it alone.
abbrev pub Reported : Store → Attempt SaveOutcome → Store → Type 0
Reported old (done outcome) new = Advanced old (accepted_save_outcome outcome) new
Reported old (threw e) new = SameBase old new

pub Reported-after :
    (a b c : Store) (r : Attempt SaveOutcome) → SameBase a b → Reported b r c → Reported a r c
Reported-after a b c (done outcome) same h =
    Advanced-after a b c (accepted_save_outcome outcome) same h
Reported-after a b c (threw e) same h = SameBase-trans a b c same h

pub Reported-then :
    (a b c : Store) (r : Attempt SaveOutcome) → Reported a r b → SameBase b c → Reported a r c
Reported-then a b c (done outcome) h same =
    Advanced-then a b c (accepted_save_outcome outcome) h same
Reported-then a b c (threw e) h same = SameBase-trans a b c h same

module _ {W : Type 0} where
  -- A step that changes nothing that the editor's work is based on, error or not.
  pub record Keeps {A : Type 0} (m : Step W A) : Type 0 where
    pub kept : (c : Cell W) → SameBase c.store (m c).1.store

  pub in_world-Keeps : {A : Type 0} (f : W → Attempt A × W) → Keeps (in_world f)
  in_world-Keeps f = record { kept = λ c. SameBase-refl c.store }

  pub pure-Keeps : {A : Type 0} (x : A) → Keeps (pure x)
  pure-Keeps x = record { kept = λ c. SameBase-refl c.store }

  pub bind-Keeps :
      {A B : Type 0} (m : Step W A) (f : A → Step W B)
      → Keeps m
      → ((x : A) → Keeps (f x))
      → Keeps (m >>= f)
  unfolding ◌>>=◌
  bind-Keeps m f k l = record {
    kept = λ c. elim (Attempt-cases (m c).0) [
      | inl (x, e) ↦
          rw (e, ◌>>=◌)
            (SameBase-trans c.store (m c).1.store (f x (m c).1).1.store (k.kept c)
              ((l x).kept (m c).1))
      | inr (x, e) ↦ rw (e, ◌>>=◌) (k.kept c)
    ];
  }

  pub attempt-Keeps : {A : Type 0} (m : Step W A) → Keeps m → Keeps (attempt m)
  unfolding attempt
  attempt-Keeps m k = record { kept = k.kept }

  -- A step whose outcome tells what it does to the store.
  pub record Reports (m : Step W SaveOutcome) : Type 0 where
    pub reported : (c : Cell W) → Reported c.store (m c).0 (m c).1.store

  pub bind-Reports :
      {A : Type 0} (m : Step W A) (f : A → Step W SaveOutcome)
      → Keeps m
      → ((x : A) → Reports (f x))
      → Reports (m >>= f)
  unfolding ◌>>=◌
  bind-Reports m f k l = record {
    reported = λ c. elim (Attempt-cases (m c).0) [
      | inl (x, e) ↦
          rw (e, ◌>>=◌)
            (Reported-after c.store (m c).1.store (f x (m c).1).1.store (f x (m c).1).0 (k.kept c)
              ((l x).reported (m c).1))
      | inr (x, e) ↦ rw (e, ◌>>=◌) (k.kept c)
    ];
  }

  -- A step that makes use of where it starts.
  pub here-Reports :
      (m : Cell W → Step W SaveOutcome) → ((c : Cell W) → Reports (m c)) → Reports (λ c. m c c)
  here-Reports m k = record { reported = λ c. (k c).reported c }

  pub here-Keeps :
      {A : Type 0} (m : Cell W → Step W A) → ((c : Cell W) → Keeps (m c)) → Keeps (λ c. m c c)
  here-Keeps m k = record { kept = λ c. (k c).kept c }

  pub change-Keeps :
      (f : Store → Store) → ((s : Store) → SameBase s (f s)) → Keeps (change {W = W} f)
  change-Keeps f same = record { kept = λ c. same c.store }

  pub reach-Keeps : (stage : Stage) → Keeps (reach {W = W} stage)
  reach-Keeps stage = record { kept = λ c. SameBase-refl c.store }

  pub hold-Keeps : (handle : Option Text) → Keeps (hold {W = W} handle)
  hold-Keeps handle = record { kept = λ c. SameBase-refl c.store }

  pub if-Keeps :
      {A : Type 0} (b : Bool) (m k : Step W A) → Keeps m → Keeps k → Keeps (if b then m else k)
  if-Keeps true m k x y = x
  if-Keeps false m k x y = y

  pub if-Reports :
      (b : Bool) (m k : Step W SaveOutcome) → Reports m → Reports k → Reports (if b then m else k)
  if-Reports true m k x y = x
  if-Reports false m k x y = y

  pub catch-Reports :
      (m : Step W SaveOutcome) (handler : Problem → Step W SaveOutcome)
      → Reports m
      → ((e : Problem) → Reports (handler e))
      → Reports (catch m handler)
  unfolding catch
  catch-Reports m handler k l = record {
    reported = λ c. elim (Attempt-cases (m c).0) [
      | inl (outcome, is) ↦ rw (is, catch) (rw (is) at (k.reported c))
      | inr (e, is) ↦
          let after = (m c).1 in
          rw (is, catch)
            (Reported-after c.store after.store (handler e after).1.store (handler e after).0
              (rw (is) at (k.reported c)) ((l e).reported after))
    ];
  }

  pub catch-Keeps :
      {A : Type 0} (m : Step W A) (handler : Problem → Step W A)
      → Keeps m
      → ((e : Problem) → Keeps (handler e))
      → Keeps (catch m handler)
  unfolding catch
  catch-Keeps m handler k l = record {
    kept = λ c. elim (Attempt-cases (m c).0) [
      | inl (x, is) ↦ rw (is, catch) (k.kept c)
      | inr (e, is) ↦
          let after = (m c).1 in
          rw (is, catch)
            (SameBase-trans c.store after.store (handler e after).1.store (k.kept c)
              ((l e).kept after))
    ];
  }

  pub option-Reports :
      {A : Type 0} (o : Option A) {m : Step W SaveOutcome} {f : A → Step W SaveOutcome}
      → Reports m
      → ((x : A) → Reports (f x))
      → Reports (elim o [ none ↦ m | some x ↦ f x ])
  option-Reports none k l = k
  option-Reports (some x) k l = l x
