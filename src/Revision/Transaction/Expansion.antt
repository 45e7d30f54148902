-- ===== src/Revision/Transaction/Expansion.antt =====
-- What the compact form of a transaction stands for, and when it can be expanded.
use noto.Common.{
  take, drop, drop-cons, slice_add, ℕ, zero, suc, Option, get_elem?, sym, map, ◌+◌, ◌≤◌, ◌≡◌, refl,
  ap, ◌∙◌, ◌↔◌, inl, inr, false, none, some, List, [], ◌∷◌, ◌++◌, append-nil, append_assoc, arith,
  ltb, Bool-cases, Option-cases, nat_eq, list_eq, length, length-append, All,
}
use noto.Contracts.{Block, EditUnit, WireUnit, plain, kept}
use noto.Revision.Transaction.{max_transaction_units, kept_units, expand_unit, expand_from}

-- the unit that a run gives for a block
abbrev pub kept_unit : Block → EditUnit
kept_unit b = record { origin = some b.origin; markdown = none }

abbrev pub unit_flat : List Block → WireUnit → List EditUnit
unit_flat bs (plain u) = u ∷ []
unit_flat bs (kept r) = kept_units bs r

-- The units that `expandTransaction` collects for a list on the wire.
abbrev pub flat : List Block → List WireUnit → List EditUnit
flat bs [] = []
flat bs (u ∷ us) = unit_flat bs u ++ flat bs us

-- A run names only blocks that the document has.
abbrev pub RunFits : List Block → WireUnit → Type 0
RunFits bs (plain u) = Unit
RunFits bs (kept r) = r.keep + r.count ≤ length bs

pub flat-append :
    (bs : List Block) (us vs : List WireUnit) → flat bs (us ++ vs) ≡ flat bs us ++ flat bs vs
flat-append bs [] vs = refl
flat-append bs (u ∷ us) vs = simp (flat-append bs us vs, append_assoc)

pub expand_unit_of_RunFits :
    (bs : List Block) (u : WireUnit) → RunFits bs u → expand_unit bs u ≡ some (unit_flat bs u)
unfolding expand_unit
expand_unit_of_RunFits bs (plain u) h = refl
expand_unit_of_RunFits bs (kept r) h = ground arith

pub expand_unit-eq-some :
    (bs : List Block) (u : WireUnit) {more : List EditUnit}
    → expand_unit bs u ≡ some more
    → RunFits bs u × (unit_flat bs u ≡ more)
unfolding expand_unit
expand_unit-eq-some bs (plain u) h = (tt, ground arith)
expand_unit-eq-some bs (kept r) h = ground arith

pub room_for_more :
    (acc more : List EditUnit) (rest : List EditUnit)
    → length (acc ++ (more ++ rest)) ≤ max_transaction_units
    → ltb max_transaction_units (length (acc ++ more)) ≡ false
room_for_more acc more rest h =
    ground
      (arith, length-append acc more, length-append acc (more ++ rest), length-append more rest)

pub expand_from_of_RunFits :
    (bs : List Block) (acc : List EditUnit) (us : List WireUnit)
    → All (RunFits bs) us
    → length (acc ++ flat bs us) ≤ max_transaction_units
    → expand_from bs acc us ≡ some (acc ++ flat bs us)
unfolding expand_from
expand_from_of_RunFits bs acc [] h k = rw append-nil
expand_from_of_RunFits bs acc (u ∷ us) (fits, h) k =
    let ih = expand_from_of_RunFits bs (acc ++ unit_flat bs u) us h (rw append_assoc k) in
    rw (expand_unit_of_RunFits bs u fits, expand_from)
      (rw (room_for_more acc (unit_flat bs u) (flat bs us) k)
        (ih ∙ ap some (append_assoc acc (unit_flat bs u) (flat bs us))))

pub expand_from-eq-some :
    (bs : List Block) (acc : List EditUnit) (us : List WireUnit) {out : List EditUnit}
    → length acc ≤ max_transaction_units
    → expand_from bs acc us ≡ some out
    → All (RunFits bs) us × (acc ++ flat bs us ≡ out) × (length out ≤ max_transaction_units)
unfolding expand_from
expand_from-eq-some bs acc [] {out} k h =
    let e : acc ≡ out = ground arith in (tt, append-nil acc ∙ e, rw (← e) k)
expand_from-eq-some bs acc (u ∷ us) {out} k h = elim (Option-cases (expand_unit bs u)) [
  | inl e ↦ absurd (cc (rw (e, expand_from) at h))
  | inr (more, e) ↦ elim (Bool-cases (ltb max_transaction_units (length (acc ++ more)))) [
    | inl big ↦ absurd (cc (rw (e, big, expand_from) at h))
    | inr small ↦
        let (fits, same) = expand_unit-eq-some bs u e in
        let (rest, whole, short) =
          expand_from-eq-some bs (acc ++ more) us (ground arith)
            (rw (e, small, expand_from) at h) in
        ((fits, rest), rw (same, ← append_assoc) whole, short)
  ]
]

-- The blocks of a document from an ordinal on, one ordinal after another, as far as it has them.
abbrev pub kept_at : Option Block → List EditUnit
kept_at none = []
kept_at (some b) = kept_unit b ∷ []

abbrev pub blocks_at : List Block → ℕ → ℕ → List EditUnit
blocks_at bs ordinal zero = []
blocks_at bs ordinal (suc count) =
    kept_at (get_elem? bs ordinal) ++ blocks_at bs (ordinal + 1) count

-- The units that a list on the wire stands for: a run, for the blocks at its ordinals.
abbrev pub meant : List Block → List WireUnit → List EditUnit
meant bs [] = []
meant bs (plain u ∷ us) = u ∷ meant bs us
meant bs (kept r ∷ us) = blocks_at bs r.keep r.count ++ meant bs us

take-blocks_at :
    (bs : List Block) (ordinal count : ℕ)
    → ordinal + count ≤ length bs
    → map kept_unit (take count (drop ordinal bs)) ≡ blocks_at bs ordinal count
take-blocks_at bs ordinal zero h = refl
take-blocks_at bs ordinal (suc count) h =
    let (b, at, split) = drop-cons ordinal bs (omega arith) in
    let rest = take-blocks_at bs (ordinal + 1) count (omega arith) in
    rw (split, at) (ap (λ units. kept_unit b ∷ units) rest)

kept_units-blocks_at :
    (bs : List Block) (keep count : ℕ)
    → keep + count ≤ length bs
    → kept_units bs (record { keep = keep; count = count }) ≡ blocks_at bs keep count
kept_units-blocks_at bs keep count h =
    ap (map kept_unit) (slice_add keep count bs) ∙ take-blocks_at bs keep count h

flat-meant : (bs : List Block) (us : List WireUnit) → All (RunFits bs) us → flat bs us ≡ meant bs us
flat-meant bs [] h = refl
flat-meant bs (plain u ∷ us) (fits, h) = ap (λ rest. u ∷ rest) (flat-meant bs us h)
flat-meant bs (kept r ∷ us) (fits, h) =
    ap (λ rest. kept_units bs r ++ rest) (flat-meant bs us h)
    ∙ ap (λ first. first ++ meant bs us) (kept_units-blocks_at bs r.keep r.count fits)

-- Expanding a transaction gives exactly the units that the list stands for, each unit as it is and
-- each run as the blocks at its ordinals, one by one, when every run names blocks that the document
-- has and the result has at most 100,000 units; in every other case it gives nothing.
pub expand_iff :
    (bs : List Block) (us : List WireUnit) (out : List EditUnit)
    → (expand_from bs [] us ≡ some out)
      ↔ (All (RunFits bs) us × (meant bs us ≡ out) × (length out ≤ max_transaction_units))
expand_iff bs us out = (
  λ h.
      let (fits, same, short) = expand_from-eq-some bs [] us (omega arith) h in
      (fits, sym (flat-meant bs us fits) ∙ same, short),
  λ h.
      let same = flat-meant bs us h.0 ∙ h.1 in
      expand_from_of_RunFits bs [] us h.0 (rw same h.2) ∙ ap some same,
)
