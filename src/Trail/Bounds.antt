-- ===== src/Trail/Bounds.antt =====
-- What the shell does with the trail of trail.ts, and how long it gets.
use noto.Common.{
  ◌≤◌, ◌≡◌, not, Option, none, some, List, [], ◌∷◌, ◌++◌, arith, ◌==◌, nat_eq, list_eq, length,
  length-take, Text, length-keep-le, length-take_last, length-init-le,
}
use noto.Trail.{
  push_back, push_forward, Trail, trail_cap, empty_trail, record_visit, step_back, step_forward,
  forget,
}

pub record IsBounded (t : Trail) : Type 0 where
  pub back : length t.back ≤ trail_cap
  pub forward : length t.forward ≤ trail_cap

-- What the shell does with the trail, a step at a time.
pub data Step : Trail → Trail → Type 0 where
  visits : (t : Trail) (path : Text) → Step t (record_visit t path)
  goes_back : {t u : Trail} {target : Text} → step_back t ≡ some (u, target) → Step t u
  goes_forward : {t u : Trail} {target : Text} → step_forward t ≡ some (u, target) → Step t u
  forgets : (t : Trail) (path : Text) → Step t (forget t path)

pub data Reach : Trail → Type 0 where
  start : Reach empty_trail
  next : {t u : Trail} → Reach t → Step t u → Reach u

length-push_back :
    (back : List Text) (c : Option Text) → length back ≤ 3 → length (push_back back c) ≤ 3
length-push_back back none h = h
length-push_back back (some c) h = omega (arith, length-take_last 3 (back ++ c ∷ []))

length-push_forward :
    (forward : List Text) (c : Option Text)
    → length forward ≤ 3
    → length (push_forward forward c) ≤ 3
length-push_forward forward none h = h
length-push_forward forward (some c) h = omega (arith, length-take 3 (c ∷ forward))

Step-IsBounded : {t u : Trail} → Step t u → IsBounded t → IsBounded u
unfolding record_visit step_back step_forward forget
Step-IsBounded (visits t path) b = ground (arith, length-push_back t.back t.current)
Step-IsBounded (goes_back {t} {u} {target} e) b =
    ground (arith, length-init-le t.back, length-push_forward t.forward t.current)
Step-IsBounded (goes_forward {t} {u} e) b = ground (arith, length-push_back t.back t.current)
Step-IsBounded (forgets t path) b = record {
  back = omega (arith, length-keep-le (λ entry. not (entry == path)) t.back);
  forward = omega (arith, length-keep-le (λ entry. not (entry == path)) t.forward);
}

-- However the trail was reached, each side holds at most three notes.
pub Reach-IsBounded : {t : Trail} → Reach t → IsBounded t
Reach-IsBounded start = record { back = omega arith; forward = omega arith }
Reach-IsBounded (next r s) = Step-IsBounded s (Reach-IsBounded r)
