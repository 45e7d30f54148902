-- ===== src/Serialize/Cases.antt =====
-- Predicates on what the results of a save are chosen from.
use noto.Common.{
  ℕ, ◌≡◌, refl, Bool, true, false, Option, none, some, List, if◌then◌else◌, nat_eq, bool_eq,
  list_eq, Text,
}
use noto.Contracts.{Document}
use noto.Document.{ParseResult, parsed, invalid_utf8}
use noto.Serialize.{EngineSaved, EngineResult, engine_saved, engine_failed, SerializeResult}

-- A predicate on what a case distinction gives.
pub case_option {ℓ} :
    {A : Type ℓ} {R : Type 0} (P : R → Type 0) (o : Option A) {x : R} {f : A → R}
    → P x
    → ((a : A) → P (f a))
    → P (elim o [ none ↦ x | some a ↦ f a ])
case_option P none px pf = px
case_option P (some a) px pf = pf a

-- The same with the equation.
pub case_some {ℓ} :
    {A : Type ℓ} {R : Type 0} (P : R → Type 0) (o : Option A) {x : R} {f : A → R}
    → P x
    → ((a : A) → o ≡ some a → P (f a))
    → P (elim o [ none ↦ x | some a ↦ f a ])
case_some P none px pf = px
case_some P (some a) px pf = pf a refl

pub case_bool :
    {R : Type 0} (P : R → Type 0) (b : Bool) {x y : R} → P x → P y → P (if b then x else y)
case_bool P true px py = px
case_bool P false px py = py

pub case_parsed :
    (P : SerializeResult → Type 0) (o : ParseResult) {f : List ℕ → SerializeResult}
    {g : Document → SerializeResult}
    → ((bytes : List ℕ) → P (f bytes))
    → ((read : Document) → o ≡ parsed read → P (g read))
    → P (elim o [ invalid_utf8 bytes ↦ f bytes | parsed read ↦ g read ])
case_parsed P (invalid_utf8 bytes) pf pg = pf bytes
case_parsed P (parsed read) pf pg = pg read refl

pub case_engine :
    (P : SerializeResult → Type 0) (o : EngineResult) {f : Text → SerializeResult}
    {g : EngineSaved → SerializeResult}
    → ((code : Text) → P (f code))
    → ((saved : EngineSaved) → P (g saved))
    → P (elim o [ engine_failed code ↦ f code | engine_saved saved ↦ g saved ])
case_engine P (engine_failed code) pf pg = pf code
case_engine P (engine_saved saved) pf pg = pg saved
