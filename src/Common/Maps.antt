-- ===== src/Common/Maps.antt =====
-- A JavaScript `Map` or `Set` with string keys: the entries in the order of insertion.
use Prim.Native.Nat.{◌+◌, ◌≤◌}
use mathlib.Core.Path.{◌≡◌, refl}
use mathlib.Core.Bool.{Bool, false, ◌||◌}
use mathlib.Core.Option.{Option, none, some}
use mathlib.Core.List.{List, [], ◌∷◌, ◌++◌}
use native.Mathlib.Omega.{arith}
use noto.Common.Tests.{if◌then◌else◌}
use noto.Common.Equality.{◌==◌, list_eq, nat_eq, list_beq_iff}
use noto.Common.Lists.{length, length-append}
use noto.Common.Texts.{Text}

module _ {ℓ} {V : Type ℓ} where
  -- `map.get(key)`
  unfoldable pub lookup : Text → List (Text × V) → Option V
  lookup key [] = none
  lookup key ((k, v) ∷ m) = if k == key then some v else lookup key m

  -- `map.set(key, value)`: an entry keeps its place
  unfoldable pub insert : Text → V → List (Text × V) → List (Text × V)
  insert key v [] = (key, v) ∷ []
  insert key v ((k, w) ∷ m) = if k == key then (k, v) ∷ m else (k, w) ∷ insert key v m

  -- `map.delete(key)`
  unfoldable pub remove : Text → List (Text × V) → List (Text × V)
  remove key [] = []
  remove key ((k, v) ∷ m) = let rest = remove key m in if k == key then rest else (k, v) ∷ rest

  pub length-remove-le : (key : Text) (m : List (Text × V)) → length (remove key m) ≤ length m
  unfolding remove
  length-remove-le key [] = omega arith
  length-remove-le key ((k, v) ∷ m) = ground (arith, length-remove-le key m)

  pub lookup-insert :
      (key other : Text) (value : V) (entries : List (Text × V))
      → lookup other (insert key value entries)
        ≡ (if key == other then some value else lookup other entries)
  unfolding lookup insert
  lookup-insert key other value [] = refl
  lookup-insert key other value ((first, v) ∷ entries) = ground (
    arith,
    lookup-insert key other value entries,
    list_beq_iff first key,
    list_beq_iff key other,
    list_beq_iff first other,
  )

  pub lookup-remove :
      (key other : Text) (entries : List (Text × V))
      → lookup other (remove key entries) ≡ (if key == other then none else lookup other entries)
  unfolding lookup remove
  lookup-remove key other [] = ground arith
  lookup-remove key other ((first, v) ∷ entries) = ground (
    arith,
    lookup-remove key other entries,
    list_beq_iff first key,
    list_beq_iff key other,
    list_beq_iff first other,
  )

-- `set.has(x)`
unfoldable pub has : Text → List Text → Bool
has x [] = false
has x (y ∷ ys) = y == x || has x ys

-- `set.add(x)`
unfoldable pub add : Text → List Text → List Text
unfolding has
add x ys = if has x ys then ys else ys ++ x ∷ []

pub has-append : (x y : Text) (ys : List Text) → has x (ys ++ y ∷ []) ≡ (has x ys || y == x)
unfolding has
has-append x y [] = ground arith
has-append x y (z ∷ ys) = ground (arith, has-append x y ys)

pub has-add : (x y : Text) (ys : List Text) → has x (add y ys) ≡ (has x ys || y == x)
unfolding add
has-add x y ys = ground (arith, has-append x y ys, list_beq_iff y x)

pub length-add-le : (x : Text) (ys : List Text) → length (add x ys) ≤ length ys + 1
unfolding add
length-add-le x ys = ground (arith, length-append ys (x ∷ []))
