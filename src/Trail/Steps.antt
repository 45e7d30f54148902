-- ===== src/Trail/Steps.antt =====
-- Stepping along the trail and back again.
use noto.Common.{
  take_last-append, list_beq_iff, ◌≡◌, sym, ◌∙◌, ◌≢◌, inl, inr, not, Option, none, some, List, [],
  ◌∷◌, ◌++◌, arith, if◌then◌else◌, Bool-cases, Option-cases, ◌==◌, nat_eq, list_eq, take, All, Text,
  take_last, init, last?, keep, init-append, last?-append, append_of_last?, take_last_of_le,
}
use noto.Trail.{Trail, is_current, push_forward, record_visit, step_back, step_forward, forget}
use noto.Trail.Bounds.{IsBounded}

-- After a step back from a note, a step forward returns to it, with the same notes behind; of the
-- notes ahead the two nearest are kept.
pub step_forward-step_back :
    (t u : Trail) (target here : Text)
    → IsBounded t
    → t.current ≡ some here
    → step_back t ≡ some (u, target)
    → (t.back ≡ u.back ++ target ∷ [])
      × (u.current ≡ some target)
      × (step_forward u ≡ some (record t { forward = take 2 t.forward }, here))
unfolding step_back step_forward
step_forward-step_back t u target here b c e = elim (Option-cases (last? t.back)) [
  | inl h ↦ absurd (cc (rw (h, step_back) at e))
  | inr (last, h) ↦
      let e' = rw (h, c, step_back) at e in
      let is_u : u ≡ record {
        back = init t.back;
        forward = take 3 (here ∷ t.forward);
        current = some last;
      } =
        ground (arith, e') in
      let is_target : last ≡ target = ground (arith, e') in
      let whole : init t.back ++ target ∷ [] ≡ t.back =
        rw (← is_target) (append_of_last? t.back h) in
      let back : take_last 3 (init t.back ++ target ∷ []) ≡ t.back =
        rw whole (take_last_of_le 3 t.back b.back) in
      (rw is_u (sym whole), rw (is_u, is_target), rw is_u (ground (arith, back, is_target)))
]

step_back-eq :
    (back forward : List Text) (c : Option Text) {target : Text}
    → last? back ≡ some target
    → step_back (record { back = back; forward = forward; current = c })
      ≡ some (
        record { back = init back; forward = push_forward forward c; current = some target },
        target,
      )
unfolding step_back
step_back-eq back forward c h = rw (h, step_back)

-- A visit to another note clears what was ahead, and a step back then returns to the note that was
-- left, with the two nearest notes behind it.
pub step_back-record_visit :
    (t : Trail) (here path : Text)
    → t.current ≡ some here
    → path ≢ here
    → step_back (record_visit t path)
      ≡ some (record { back = take_last 2 t.back; forward = path ∷ []; current = some here }, here)
unfolding step_back record_visit
step_back-record_visit t here path c d = elim (Bool-cases (path == here)) [
  | inl e ↦ absurd (d ((list_beq_iff path here).0 e))
  | inr e ↦
      let visited : record_visit t path
          ≡ record { back = take_last 2 t.back ++ here ∷ []; forward = []; current = some path } =
        ground (arith, take_last-append 2 t.back here) in
      rw visited (
        step_back-eq (take_last 2 t.back ++ here ∷ []) [] (some path)
          (last?-append (take_last 2 t.back) here)
        ∙ rw (init-append (take_last 2 t.back) here))
]

-- The path is nowhere on the trail.
abbrev pub Absent : Text → Trail → Type 0
Absent path t =
    All (λ entry. entry ≢ path) t.back
    × All (λ entry. entry ≢ path) t.forward
    × (t.current ≢ some path)

Absent-keep :
    (path : Text) (xs : List Text)
    → All (λ entry. entry ≢ path) (keep (λ entry. not (entry == path)) xs)
Absent-keep path [] = tt
Absent-keep path (x ∷ xs) = elim (Bool-cases (x == path)) [
  | inl e ↦ rw (e, keep) (Absent-keep path xs)
  | inr e ↦ rw (e, keep) (λ same. cc (e, (list_beq_iff x path).1 same), Absent-keep path xs)
]

-- A note that was forgotten is nowhere on the trail, and neither a step back nor a step forward can
-- lead to it.
pub forget-Absent : (t : Trail) (path : Text) → Absent path (forget t path)
unfolding forget
forget-Absent t path = (Absent-keep path t.back, Absent-keep path t.forward, absent t.current)
  where
    absent : (c : Option Text) → (if is_current path c then none else c) ≢ some path
    absent none h = cc
    absent (some c) h = elim (Bool-cases (path == c)) [
      | inl e ↦ cc (rw e at h)
      | inr e ↦
          let same : c ≡ path = ground (arith, rw e at h) in
          cc (e, (list_beq_iff path c).1 (sym same))
    ]
