-- ===== src/Tests/Reader.antt =====
-- A short trail through three notes.
use noto.Common.{◌≡◌, refl, some, [], ◌∷◌, ◌++◌, arith, nat_eq, list_eq, codes}
use noto.Trail.{Trail, record_visit, step_back, step_forward, empty_trail}
use noto.Trail.Bounds.{IsBounded, visits, start, next, Reach-IsBounded}
use noto.Trail.Steps.{step_forward-step_back}

abbrev on_second : Trail
on_second = record {
  back = codes "a" ∷ codes "b" ∷ [];
  forward = codes "d" ∷ [];
  current = some (codes "c");
}

abbrev on_first : Trail
on_first = record {
  back = codes "a" ∷ [];
  forward = codes "c" ∷ codes "d" ∷ [];
  current = some (codes "b");
}

back_to_first : step_back on_second ≡ some (on_first, codes "b")
unfolding step_back
back_to_first = refl

step_forward-step_back_example :
    (on_second.back ≡ on_first.back ++ codes "b" ∷ [])
    × (on_first.current ≡ some (codes "b"))
    × (step_forward on_first ≡ some (record on_second { forward = codes "d" ∷ [] }, codes "c"))
step_forward-step_back_example =
    step_forward-step_back on_second on_first (codes "b") (codes "c")
      (record { back = omega arith; forward = omega arith }) refl back_to_first

Reach-IsBounded_example :
    IsBounded (record_visit (record_visit empty_trail (codes "a")) (codes "b"))
Reach-IsBounded_example = Reach-IsBounded (
    next (next start (visits empty_trail (codes "a")))
      (visits (record_visit empty_trail (codes "a")) (codes "b")))
