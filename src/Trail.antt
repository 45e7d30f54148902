-- ===== src/Trail.antt =====
-- src/renderer/trail.ts: back and forward across recently visited notes.
pub mod Bounds
pub mod Steps
use noto.Common.{
  ℕ, ◌+◌, Bool, false, not, Option, none, some, List, [], ◌∷◌, ◌++◌, if◌then◌else◌, ◌==◌, nat_eq,
  list_eq, take, Text, take_last, init, last?, keep,
}

abbrev pub trail_cap : ℕ
trail_cap = 3

pub record Trail : Type 0 where
  pub back : List Text
  pub forward : List Text
  pub current : Option Text

abbrev pub empty_trail : Trail
empty_trail = record { back = []; forward = []; current = none }

-- `path === trail.current`
abbrev pub is_current : Text → Option Text → Bool
is_current path none = false
is_current path (some c) = path == c

-- the current note, pushed on the back stack or on the forward stack, capped
abbrev pub push_back : List Text → Option Text → List Text
push_back back none = back
push_back back (some c) = take_last trail_cap (back ++ c ∷ [])

abbrev pub push_forward : List Text → Option Text → List Text
push_forward forward none = forward
push_forward forward (some c) = take trail_cap (c ∷ forward)

unfoldable pub record_visit : Trail → Text → Trail
record_visit t path =
    if is_current path t.current
    then t
    else record { back = push_back t.back t.current; forward = []; current = some path }

unfoldable pub step_back : Trail → Option (Trail × Text)
step_back t = elim (last? t.back) [
  | none ↦ none
  | some target ↦ some (
    record {
      back = init t.back;
      forward = push_forward t.forward t.current;
      current = some target;
    },
    target,
  )
]

unfoldable pub step_forward : Trail → Option (Trail × Text)
step_forward t = elim t.forward [
  | [] ↦ none
  | target ∷ later ↦
      some (
        record { back = push_back t.back t.current; forward = later; current = some target },
        target,
      )
]

unfoldable pub forget : Trail → Text → Trail
forget t path = record {
  back = keep (λ entry. not (entry == path)) t.back;
  forward = keep (λ entry. not (entry == path)) t.forward;
  current = if is_current path t.current then none else t.current;
}
