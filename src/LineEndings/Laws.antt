-- ===== src/LineEndings/Laws.antt =====
-- Line ending conversion: what is in memory has line feeds only, and what was read is written back.
use noto.Common.{
  ℕ, suc, ◌+◌, ◌≡◌, refl, sym, ap, ◌∙◌, ◌≢◌, inl, inr, Bool, true, false, [], ◌∷◌, arith, nat_beq,
  nat_beq_iff, Bool-cases, nat_eq, list_eq, Text,
}
use mathlib.Core.Path.{ap₂}
use noto.Contracts.{LineEnding, lf, crlf, mixed}
use noto.LineEndings.{
  includes_unit, replace_crlf, replace_cr, replace_lf, to_lf, from_lf, detect_from,
  detect_line_ending,
}

abbrev pub NoCr : Text → Type 0
NoCr [] = Unit
NoCr (c ∷ t) = (c ≢ 13) × NoCr t

-- No carriage return stands without a line feed after it; the flag says whether one was just seen.
abbrev pub NoLoneCr : Bool → Text → Type 0
NoLoneCr after_cr [] = after_cr ≡ false
NoLoneCr after_cr (c ∷ t) = (after_cr ≡ true → c ≡ 10) × NoLoneCr (nat_beq c 13) t

-- Every line feed follows a carriage return, and every carriage return is followed by one.
abbrev pub Paired : Bool → Text → Type 0
Paired after_cr [] = after_cr ≡ false
Paired after_cr (c ∷ t) = (nat_beq c 10 ≡ after_cr) × Paired (nat_beq c 13) t

NoCr-replace_cr : (t : Text) → NoCr (replace_cr t)
unfolding replace_cr
NoCr-replace_cr [] = tt
NoCr-replace_cr (c ∷ t) = (ground arith, NoCr-replace_cr t)

NoCr-includes_unit : (t : Text) → includes_unit 13 t ≡ false → NoCr t
unfolding includes_unit
NoCr-includes_unit [] h = tt
NoCr-includes_unit (c ∷ t) h = (ground arith, NoCr-includes_unit t (ground arith))

includes_unit_of_NoCr : (t : Text) → NoCr t → includes_unit 13 t ≡ false
unfolding includes_unit
includes_unit_of_NoCr [] h = refl
includes_unit_of_NoCr (c ∷ t) (p, h) = ground (arith, includes_unit_of_NoCr t h)

-- What is converted to line feeds has no carriage return left.
pub to_lf-NoCr : (t : Text) → NoCr (to_lf t)
unfolding to_lf
to_lf-NoCr t = elim (Bool-cases (includes_unit 13 t)) [
  | inl e ↦ rw e (NoCr-replace_cr (replace_crlf t))
  | inr e ↦ rw e (NoCr-includes_unit t e)
]

to_lf_of_NoCr : (t : Text) → NoCr t → to_lf t ≡ t
unfolding to_lf
to_lf_of_NoCr t h = rw (includes_unit_of_NoCr t h)

replace_cr_of_NoCr : (t : Text) → NoCr t → replace_cr t ≡ t
unfolding replace_cr
replace_cr_of_NoCr [] h = refl
replace_cr_of_NoCr (c ∷ t) (p, h) = ground (arith, replace_cr_of_NoCr t h)

replace_crlf-cons : (c : ℕ) (t : Text) → c ≢ 13 → replace_crlf (c ∷ t) ≡ c ∷ replace_crlf t
unfolding replace_crlf
replace_crlf-cons c [] h = refl
replace_crlf-cons c (d ∷ t) h = let e : nat_beq c 13 ≡ false = ground arith in rw (e, replace_crlf)

replace_crlf-pair : (t : Text) → replace_crlf (13 ∷ 10 ∷ t) ≡ 10 ∷ replace_crlf t
unfolding replace_crlf
replace_crlf-pair t = refl

replace_crlf-replace_lf : (t : Text) → NoCr t → replace_crlf (replace_lf t) ≡ t
unfolding replace_lf
replace_crlf-replace_lf [] h = unfold replace_crlf in refl
replace_crlf-replace_lf (c ∷ t) (p, h) = elim (Bool-cases (nat_beq c 10)) [
  | inl e ↦
      rw (e, replace_lf)
        (replace_crlf-pair (replace_lf t)
          ∙ ap₂ (λ (x : ℕ) (u : Text). x ∷ u) (sym ((nat_beq_iff c 10).0 e))
              (replace_crlf-replace_lf t h))
  | inr e ↦
      rw (e, replace_lf)
        (replace_crlf-cons c (replace_lf t) p ∙ ap (λ u. c ∷ u) (replace_crlf-replace_lf t h))
]

includes_unit_of_lf :
    (t : Text) → NoCr t → includes_unit 13 (replace_lf t) ≡ false → replace_lf t ≡ t
unfolding includes_unit replace_lf
includes_unit_of_lf [] h k = refl
includes_unit_of_lf (c ∷ t) (p, h) k = ground (arith, includes_unit_of_lf t h)

-- Text in memory, which has no carriage return, is the same again after it is written with either
-- kind of line ending and read back.
pub to_lf-from_lf : (t : Text) (e : LineEnding) → NoCr t → to_lf (from_lf t e) ≡ t
unfolding to_lf from_lf
to_lf-from_lf t lf h = to_lf_of_NoCr t h
to_lf-from_lf t mixed h = to_lf_of_NoCr t h
to_lf-from_lf t crlf h = elim (Bool-cases (includes_unit 13 (replace_lf t))) [
  | inl e ↦ rw (e, to_lf) (rw (replace_crlf-replace_lf t h) (replace_cr_of_NoCr t h))
  | inr e ↦ rw (e, to_lf) (includes_unit_of_lf t h e)
]

-- Converting a second time changes nothing.
pub to_lf_idempotent : (t : Text) → to_lf (to_lf t) ≡ to_lf t
to_lf_idempotent t = to_lf_of_NoCr (to_lf t) (to_lf-NoCr t)

replace_crlf_of_NoCr : (t : Text) → NoCr t → replace_crlf t ≡ t
replace_crlf_of_NoCr [] h = unfold replace_crlf in refl
replace_crlf_of_NoCr (c ∷ t) (p, h) =
    replace_crlf-cons c t p ∙ ap (λ u. c ∷ u) (replace_crlf_of_NoCr t h)

-- The test of `to_lf` only saves time.
to_lf-eq : (t : Text) → to_lf t ≡ replace_cr (replace_crlf t)
unfolding to_lf
to_lf-eq t = elim (Bool-cases (includes_unit 13 t)) [
  | inl e ↦ rw e
  | inr e ↦
      let h = NoCr-includes_unit t e in
      rw (e, to_lf) (sym (ap replace_cr (replace_crlf_of_NoCr t h) ∙ replace_cr_of_NoCr t h))
]

replace_lf_of_Paired : (t : Text) → Paired false t → replace_lf (replace_cr (replace_crlf t)) ≡ t
unfolding replace_crlf replace_cr replace_lf
replace_lf_of_Paired [] h = refl
replace_lf_of_Paired (c ∷ []) h = ground arith
replace_lf_of_Paired (c ∷ d ∷ t) h = elim (Bool-cases (nat_beq c 13)) [
  | inl e ↦ ground (arith, replace_lf_of_Paired t)
  | inr e ↦ ground (arith, replace_lf_of_Paired (d ∷ t))
]

not-crlf_of_bare : (after : Bool) (bare : ℕ) (t : Text) → detect_from after 0 (suc bare) t ≢ crlf
unfolding detect_from
not-crlf_of_bare after bare [] h = cc
not-crlf_of_bare after bare (c ∷ t) h =
    ground
      (arith, not-crlf_of_bare (nat_beq c 13) bare t, not-crlf_of_bare (nat_beq c 13) (suc bare) t)

detect_from-Paired :
    (after : Bool) (pairs : ℕ) (t : Text)
    → detect_from after pairs 0 t ≡ crlf
    → NoLoneCr after t
    → Paired after t
unfolding detect_from
detect_from-Paired after pairs [] h k = k
detect_from-Paired true pairs (c ∷ t) h (p, k) =
    let e : nat_beq c 10 ≡ true = (nat_beq_iff c 10).1 (p refl) in
    (e, detect_from-Paired (nat_beq c 13) (pairs + 1) t (ground arith) k)
detect_from-Paired false pairs (c ∷ t) h (p, k) = elim (Bool-cases (nat_beq c 10)) [
  | inl e ↦ absurd (ground (arith, not-crlf_of_bare (nat_beq c 13) 0 t))
  | inr e ↦ (e, detect_from-Paired (nat_beq c 13) pairs t (ground arith) k)
]

-- A file whose line endings are detected as CRLF, and which has no carriage return on its own, is
-- the same again after it is read into memory and written back.
pub from_lf-to_lf_crlf :
    (t : Text) → detect_line_ending t ≡ crlf → NoLoneCr false t → from_lf (to_lf t) crlf ≡ t
unfolding from_lf detect_line_ending
from_lf-to_lf_crlf t h k =
    rw (to_lf-eq t) (replace_lf_of_Paired t (detect_from-Paired false 0 t (ground arith) k))
