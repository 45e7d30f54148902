-- ===== src/FileTruth/Store/Triples.antt =====
-- What holds after a step, by what held before it: of its answer, and of where an error leaves it.
use noto.Common.{
  Option, none, some, ◌≡◌, refl, inl, inr, Bool, true, false, if◌then◌else◌, nat_eq, bool_eq,
  list_eq,
}
use noto.FileTruth.Platform.{Attempt, done, threw, Problem}
use noto.FileTruth.Store.{Cell, Step, ◌>>=◌, ◌>>◌, attempt, catch}
use noto.FileTruth.Store.Saving.Settled.{Attempt-cases}

module _ {W : Type 0} where
  abbrev pub Post :
      {A : Type 0} → (A → Cell W → Type 0) → (Cell W → Type 0) → Attempt A → Cell W → Type 0
  Post Q E (done x) c = Q x c
  Post Q E (threw e) c = E c

  pub record Triple {A : Type 0} (P : Cell W → Type 0) (m : Step W A) (Q : A → Cell W → Type 0)
      (E : Cell W → Type 0) : Type 0 where
    pub holds : (c : Cell W) → P c → Post Q E (m c).0 (m c).1

  -- A step that keeps what holds, error or not.
  abbrev pub Stays : {A : Type 0} → (Cell W → Type 0) → Step W A → Type 0
  Stays P m = Triple P m (λ x. P) P

  pub bind-Triple :
      {A B : Type 0} {P : Cell W → Type 0} {Q : A → Cell W → Type 0} {R : B → Cell W → Type 0}
      {E : Cell W → Type 0} (m : Step W A) (f : A → Step W B)
      → Triple P m Q E
      → ((x : A) → Triple (Q x) (f x) R E)
      → Triple P (m >>= f) R E
  unfolding ◌>>=◌
  bind-Triple {Q = Q} {E = E} m f k l = record {
    holds = λ c h. elim (Attempt-cases (m c).0) [
      | inl (x, is) ↦ rw (is, ◌>>=◌) ((l x).holds (m c).1 (rw (is) at (k.holds c h)))
      | inr (e, is) ↦ rw (is, ◌>>=◌) (rw (is) at (k.holds c h))
    ];
  }

  pub then-Triple :
      {A B : Type 0} {P Q : Cell W → Type 0} {R : B → Cell W → Type 0} {E : Cell W → Type 0}
      {m : Step W A} {k : Step W B}
      → Triple P m (λ x. Q) E
      → Triple Q k R E
      → Triple P (m >> k) R E
  then-Triple x y = bind-Triple _ _ x (λ a. y)

  pub catch-Triple :
      {A : Type 0} {P E F : Cell W → Type 0} {Q : A → Cell W → Type 0} (m : Step W A)
      (handler : Problem → Step W A)
      → Triple P m Q E
      → ((e : Problem) → Triple E (handler e) Q F)
      → Triple P (catch m handler) Q F
  unfolding catch
  catch-Triple m handler k l = record {
    holds = λ c h. elim (Attempt-cases (m c).0) [
      | inl (x, is) ↦ rw (is, catch) (rw (is) at (k.holds c h))
      | inr (e, is) ↦ rw (is, catch) ((l e).holds (m c).1 (rw (is) at (k.holds c h)))
    ];
  }

  -- What holds before may be more, and what holds after may be less.
  pub weaken-Triple :
      {A : Type 0} {P P' : Cell W → Type 0} {Q Q' : A → Cell W → Type 0} {E E' : Cell W → Type 0}
      {m : Step W A}
      → ((c : Cell W) → P' c → P c)
      → ((x : A) (c : Cell W) → Q x c → Q' x c)
      → ((c : Cell W) → E c → E' c)
      → Triple P m Q E
      → Triple P' m Q' E'
  weaken-Triple {m = m} before after error k = record {
    holds = λ c h. elim (Attempt-cases (m c).0) [
      | inl (x, is) ↦ rw (is) (after x (m c).1 (rw (is) at (k.holds c (before c h))))
      | inr (e, is) ↦ rw (is) (error (m c).1 (rw (is) at (k.holds c (before c h))))
    ];
  }

  pub here-Triple :
      {A : Type 0} {P : Cell W → Type 0} {Q : A → Cell W → Type 0} {E : Cell W → Type 0}
      (m : Cell W → Step W A)
      → ((c : Cell W) → Triple P (m c) Q E)
      → Triple P (λ c. m c c) Q E
  here-Triple m k = record { holds = λ c h. (k c).holds c h }

  pub attempt-Stays :
      {A : Type 0} {P : Cell W → Type 0} (m : Step W A) → Stays P m → Stays P (attempt m)
  unfolding attempt
  attempt-Stays m k = record {
    holds = λ c h. elim (Attempt-cases (m c).0) [
      | inl (x, is) ↦ rw (is) at (k.holds c h)
      | inr (e, is) ↦ rw (is) at (k.holds c h)
    ];
  }

  pub if-Triple :
      {A : Type 0} {P : Cell W → Type 0} {Q : A → Cell W → Type 0} {E : Cell W → Type 0} (b : Bool)
      (m k : Step W A)
      → Triple P m Q E
      → Triple P k Q E
      → Triple P (if b then m else k) Q E
  if-Triple true m k x y = x
  if-Triple false m k x y = y

  pub option-Triple :
      {A B : Type 0} {P : Cell W → Type 0} {Q : B → Cell W → Type 0} {E : Cell W → Type 0}
      (o : Option A) (f : A → Step W B) (m : Step W B)
      → Triple P m Q E
      → ((x : A) → o ≡ some x → Triple P (f x) Q E)
      → Triple P (elim o [ none ↦ m | some x ↦ f x ]) Q E
  option-Triple none f m k l = k
  option-Triple (some x) f m k l = l x refl
