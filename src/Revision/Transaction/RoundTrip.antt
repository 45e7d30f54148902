-- ===== src/Revision/Transaction/RoundTrip.antt =====
-- Expanding what was compacted.
use noto.Common.{
  ℕ, ◌+◌, ◌≤◌, ◌≡◌, refl, sym, ap, ◌∙◌, inl, inr, Option, none, some, List, [], ◌∷◌, ◌++◌, map,
  append-nil, append_assoc, arith, nat_beq_iff, Bool-cases, Option-cases, ◌==◌, nat_eq, list_eq,
  length, get_elem?, get_elem?-lt, slice_one, get_elem?-map, slice-suc, All, All-append,
  All-append_split, Text,
}
use mathlib.Core.List.{foldl, map-append}
use noto.Contracts.{
  KeptRun, same_origin, BlockOrigin, Block, EditUnit, WireUnit, plain, kept, same_origin_iff,
}
use noto.Revision.Transaction.{
  compact_step, compact_units, compacted, Compacting, extend_run, max_transaction_units,
  kept_ordinal, kept_units, expand_from,
}
use noto.Revision.Transaction.Expansion.{
  kept_unit, unit_flat, flat, RunFits, flat-append, expand_from_of_RunFits,
}

-- The unit that closes a run of blocks of the document.
kept_units-suc :
    (bs : List Block) (k c : ℕ) {b : Block}
    → get_elem? bs (k + c) ≡ some b
    → kept_units bs (record { keep = k; count = c + 1 })
      ≡ kept_units bs (record { keep = k; count = c }) ++ kept_unit b ∷ []
kept_units-suc bs k c h = rw (slice-suc k c bs h) (map-append kept_unit _ _)

kept_ordinal-eq-some :
    (bs : List Block) (markdown : Option Text) (origin : Option BlockOrigin) {n : ℕ}
    → kept_ordinal (map (λ b. b.origin) bs) markdown origin ≡ some n
    → (b : Block) × (get_elem? bs n ≡ some b)
      × (◌≡◌ {A = EditUnit} (record { origin = origin; markdown = markdown }) (kept_unit b))
unfolding kept_ordinal
kept_ordinal-eq-some bs (some m) origin h = absurd (cc)
kept_ordinal-eq-some bs none none h = absurd (cc)
kept_ordinal-eq-some bs none (some o) {n} h =
    elim (Option-cases (get_elem? (map (λ b. b.origin) bs) o.ordinal)) [
      | inl e ↦ absurd (cc (rw (e, kept_ordinal) at h))
      | inr (base, e) ↦ elim (Bool-cases (same_origin o base)) [
        | inl same ↦
            let (b, at_b, is_b) = get_elem?-map (λ (b : Block). b.origin) bs o.ordinal e in
            let n_is : o.ordinal ≡ n = ground (arith, rw (e, same, kept_ordinal) at h) in
            let o_is : o ≡ b.origin = (same_origin_iff o base).0 same ∙ sym is_b in
            (b, rw (← n_is) at_b, rw o_is)
        | inr other ↦ absurd (cc (rw (e, other, kept_ordinal) at h))
      ]
    ]

-- What a state of the compaction stands for, and that its runs are runs of the document.
record Stands (bs : List Block) (s : Compacting) (units : List EditUnit) : Type 0 where
  fits : All (RunFits bs) (compacted s)
  means : flat bs (compacted s) ≡ units

abbrev state : List WireUnit → Option KeptRun → Compacting
state units run = record { units = units; run = run }

run_grows :
    (bs : List Block) (r : KeptRun) {b : Block}
    → get_elem? bs (r.keep + r.count) ≡ some b
    → (r.keep + (r.count + 1) ≤ length bs)
      × (kept_units bs (record r { count = r.count + 1 }) ≡ kept_units bs r ++ kept_unit b ∷ [])
run_grows bs r h =
    (omega (arith, get_elem?-lt bs (r.keep + r.count) h), kept_units-suc bs r.keep r.count h)

-- One more item on the wire.
flat-snoc :
    (bs : List Block) (ws : List WireUnit) (w : WireUnit) (units : List EditUnit)
    → All (RunFits bs) ws × (flat bs ws ≡ units)
    → RunFits bs w
    → All (RunFits bs) (ws ++ w ∷ []) × (flat bs (ws ++ w ∷ []) ≡ units ++ unit_flat bs w)
flat-snoc bs ws w units (h, e) k = (
  All-append (RunFits bs) ws (w ∷ []) h (k, tt),
  simp (flat-append bs ws (w ∷ []), append-nil, e),
)

run_starts :
    (bs : List Block) (n : ℕ) {b : Block}
    → get_elem? bs n ≡ some b
    → (n + 1 ≤ length bs) × (kept_units bs (record { keep = n; count = 1 }) ≡ kept_unit b ∷ [])
run_starts bs n h = (omega (arith, get_elem?-lt bs n h), ap (map kept_unit) (slice_one n bs h))

new_run-Stands :
    (bs : List Block) (ws : List WireUnit) (units : List EditUnit) (n : ℕ) {b : Block}
    → get_elem? bs n ≡ some b
    → All (RunFits bs) ws × (flat bs ws ≡ units)
    → Stands bs (state ws (some (record { keep = n; count = 1 }))) (units ++ kept_unit b ∷ [])
new_run-Stands bs ws units n h s =
    let (fits, means) = run_starts bs n h in
    let (all_fit, whole) = flat-snoc bs ws (kept (record { keep = n; count = 1 })) units s fits in
    record { fits = all_fit; means = whole ∙ ap (λ (v : List EditUnit). units ++ v) means }

longer_run-Stands :
    (bs : List Block) (us : List WireUnit) (r : KeptRun) (units : List EditUnit) {b : Block}
    → get_elem? bs (r.keep + r.count) ≡ some b
    → Stands bs (state us (some r)) units
    → Stands bs (state us (some (record r { count = r.count + 1 }))) (units ++ kept_unit b ∷ [])
longer_run-Stands bs us r units {b} h s =
    let (fits, grown) = run_grows bs r h in
    let (before, _) = All-append_split (RunFits bs) us (kept r ∷ []) s.fits in
    let (all_fit, whole) =
      flat-snoc bs us (kept (record r { count = r.count + 1 })) (flat bs us) (before, refl) fits in
    record {
      fits = all_fit;
      means =
          whole
          ∙ (rw grown (sym (append_assoc (flat bs us) (kept_units bs r) (kept_unit b ∷ []))))
          ∙ ap (λ (v : List EditUnit). v ++ kept_unit b ∷ [])
              (sym
                  (flat-snoc bs us (kept r) (flat bs us) (before, refl)
                    (All-append_split (RunFits bs) us (kept r ∷ []) s.fits).1.0).1
                ∙ s.means);
    }

extend_run-Stands :
    (bs : List Block) (us : List WireUnit) (run : Option KeptRun) (units : List EditUnit) (n : ℕ)
    {b : Block}
    → get_elem? bs n ≡ some b
    → Stands bs (state us run) units
    → Stands bs (extend_run (state us run) n) (units ++ kept_unit b ∷ [])
unfolding extend_run
extend_run-Stands bs us none units n h s =
    new_run-Stands bs us units n h (rw (append-nil us) at s.fits, rw (append-nil us) at s.means)
extend_run-Stands bs us (some r) units n {b} h s = elim (Bool-cases (r.keep + r.count == n)) [
  | inl next ↦
      let at : get_elem? bs (r.keep + r.count) ≡ some b = rw ((nat_beq_iff _ _).0 next) h in
      rw (next, extend_run) (longer_run-Stands bs us r units at s)
  | inr other ↦
      rw (other, extend_run)
        (new_run-Stands bs (compacted (state us (some r))) units n h (s.fits, s.means))
]

compact_step-Stands :
    (bs : List Block) (s : Compacting) (units : List EditUnit) (u : EditUnit)
    → Stands bs s units
    → Stands bs (compact_step (map (λ b. b.origin) bs) s u) (units ++ u ∷ [])
unfolding compact_step
compact_step-Stands bs s units u h =
    elim (Option-cases (kept_ordinal (map (λ b. b.origin) bs) u.markdown u.origin)) [
      | inl e ↦
          let (fits, means) = flat-snoc bs (compacted s) (plain u) units (h.fits, h.means) tt in
          rw (e, compact_step)
            (record {
              fits = rw (append-nil (compacted s ++ plain u ∷ [])) fits;
              means = rw (append-nil (compacted s ++ plain u ∷ [])) means;
            })
      | inr (n, e) ↦
          let (b, at, is) = kept_ordinal-eq-some bs u.markdown u.origin e in
          rw (e, compact_step)
            (let same : u ≡ kept_unit b = is in
              rw same (extend_run-Stands bs s.units s.run units n at h))
    ]

foldl-Stands :
    (bs : List Block) (s : Compacting) (units us : List EditUnit)
    → Stands bs s units
    → Stands bs (foldl (compact_step (map (λ b. b.origin) bs)) s us) (units ++ us)
foldl-Stands bs s units [] h = rw (append-nil units) h
foldl-Stands bs s units (u ∷ us) h = rw (← append_assoc units (u ∷ []) us) (
    foldl-Stands bs (compact_step (map (λ b. b.origin) bs) s u) (units ++ u ∷ []) us
      (compact_step-Stands bs s units u h))

-- Expanding what was compacted against the same revision gives back the units, whatever they are,
-- if there are at most 100,000 of them.
pub expand-compact :
    (bs : List Block) (us : List EditUnit)
    → length us ≤ max_transaction_units
    → expand_from bs [] (compact_units (map (λ b. b.origin) bs) us) ≡ some us
unfolding compact_units
expand-compact bs us h =
    let s =
      foldl-Stands bs (record { units = []; run = none }) [] us
        (record { fits = tt; means = refl }) in
    expand_from_of_RunFits bs [] _ s.fits (rw s.means h) ∙ ap some s.means
