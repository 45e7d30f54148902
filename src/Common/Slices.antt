-- ===== src/Common/Slices.antt =====
-- Beginnings, middles and ends of lists.
use Prim.Native.Nat.{ℕ, zero, suc, ◌+◌, ◌-◌, ◌≤◌, ◌<◌}
use mathlib.Core.Path.{◌≡◌, refl, sym, ap, ◌∙◌}
use mathlib.Core.List.{List, [], ◌∷◌, ◌++◌}
use native.Mathlib.Omega.{arith}
use native.Mathlib.Nat.{zero-add}
use mathlib.Core.Option.{some}
use noto.Common.Lists.{
  drop-cons, length, get_elem?, take, drop, slice, length-drop, get_elem?-drop, take-append-drop,
}

-- Lists that agree at the indices below `n`.
pub take_ext {ℓ} :
    {A : Type ℓ} (n : ℕ) (xs ys : List A)
    → ((k : ℕ) → k < n → get_elem? xs k ≡ get_elem? ys k)
    → take n xs ≡ take n ys
take_ext zero xs ys h = refl
take_ext (suc n) [] [] h = refl
take_ext (suc n) [] (y ∷ ys) h = absurd (cc (h 0 (omega arith)))
take_ext (suc n) (x ∷ xs) [] h = absurd (cc (h 0 (omega arith)))
take_ext (suc n) (x ∷ xs) (y ∷ ys) h =
    let same : x ≡ y = ground (arith, h 0 (omega arith)) in
    let rest = take_ext n xs ys (λ k l. h (suc k) (omega arith)) in rw (same, rest)

pub take_all {ℓ} : {A : Type ℓ} (n : ℕ) (xs : List A) → length xs ≤ n → take n xs ≡ xs
take_all zero [] h = refl
take_all zero (x ∷ xs) h = absurd (omega arith)
take_all (suc n) [] h = refl
take_all (suc n) (x ∷ xs) h = ap (λ ys. x ∷ ys) (take_all n xs (omega arith))

pub drop_ext {ℓ} :
    {A : Type ℓ} (n i j : ℕ) (xs ys : List A)
    → i + n ≡ length xs
    → j + n ≡ length ys
    → ((k : ℕ) → k < n → get_elem? xs (i + k) ≡ get_elem? ys (j + k))
    → drop i xs ≡ drop j ys
drop_ext n i j xs ys a b h =
    sym (take_all n (drop i xs) (omega (arith, length-drop i xs)))
    ∙ take_ext n (drop i xs) (drop j ys)
        (λ k l. get_elem?-drop i k xs ∙ h k l ∙ sym (get_elem?-drop j k ys))
    ∙ take_all n (drop j ys) (omega (arith, length-drop j ys))

drop_nil {ℓ} : {A : Type ℓ} (k : ℕ) → drop {A = A} k [] ≡ []
drop_nil zero = refl
drop_nil (suc k) = refl

pub drop-drop {ℓ} : {A : Type ℓ} (i j : ℕ) (xs : List A) → drop j (drop i xs) ≡ drop (i + j) xs
drop-drop zero j xs = rw (zero-add j)
drop-drop (suc i) j [] = drop_nil j ∙ sym (drop_nil (suc i + j))
drop-drop (suc i) j (x ∷ xs) =
    let e : suc i + j ≡ suc (i + j) = omega arith in rw e (drop-drop i j xs)

-- A list as its beginning, its middle and its end.
pub three_parts {ℓ} :
    {A : Type ℓ} (i j : ℕ) (xs : List A) → i ≤ j → take i xs ++ (slice i j xs ++ drop j xs) ≡ xs
three_parts i j xs h =
    let e : i + (j - i) ≡ j = omega arith in
    ap (λ ys. take i xs ++ (slice i j xs ++ ys))
      (ap (λ k. drop k xs) (sym e) ∙ sym (drop-drop i (j - i) xs))
    ∙ ap (λ ys. take i xs ++ ys) (take-append-drop (j - i) (drop i xs))
    ∙ take-append-drop i xs

take-add {ℓ} :
    {A : Type ℓ} (a b : ℕ) (xs : List A) → take a xs ++ take b (drop a xs) ≡ take (a + b) xs
take-add zero b xs = rw (zero-add b)
take-add {A = A} (suc a) b [] = take_nil b ∙ sym (take_nil (suc a + b))
  where
    take_nil : (k : ℕ) → take {A = A} k [] ≡ []
    take_nil zero = refl
    take_nil (suc k) = refl
take-add (suc a) b (x ∷ xs) =
    let e : suc a + b ≡ suc (a + b) = omega arith in rw e (ap (λ ys. x ∷ ys) (take-add a b xs))

-- Two slices that meet.
pub slice-append {ℓ} :
    {A : Type ℓ} (i j k : ℕ) (xs : List A)
    → i ≤ j
    → j ≤ k
    → slice i j xs ++ slice j k xs ≡ slice i k xs
slice-append i j k xs p q =
    let e : i + (j - i) ≡ j = omega arith in
    let f : j - i + (k - j) ≡ k - i = omega arith in
    ap (λ ys. slice i j xs ++ take (k - j) ys)
      (ap (λ n. drop n xs) (sym e) ∙ sym (drop-drop i (j - i) xs))
    ∙ take-add (j - i) (k - j) (drop i xs)
    ∙ ap (λ n. take n (drop i xs)) f

-- A slice that is not empty, with its first item.
pub slice-cons {ℓ} :
    {A : Type ℓ} (i k : ℕ) (xs : List A)
    → i < k
    → i < length xs
    → (x : A) × (get_elem? xs i ≡ some x) × (slice i k xs ≡ x ∷ slice (i + 1) k xs)
slice-cons i k xs p q =
    let (x, at, is) = drop-cons i xs q in
    let e : k - i ≡ suc (k - (i + 1)) = omega arith in (x, at, rw (e, is))

pub slice_none {ℓ} : {A : Type ℓ} (i k : ℕ) (xs : List A) → k ≤ i → slice i k xs ≡ []
slice_none i k xs h = let e : k - i ≡ 0 = omega arith in rw e

pub slice_rest {ℓ} : {A : Type ℓ} (i : ℕ) (xs : List A) → slice i (length xs) xs ≡ drop i xs
slice_rest i xs = take_all (length xs - i) (drop i xs) (omega (arith, length-drop i xs))

pub drop_all {ℓ} : {A : Type ℓ} (n : ℕ) (xs : List A) → length xs ≤ n → drop n xs ≡ []
drop_all n [] h = drop_nil n
drop_all zero (x ∷ xs) h = absurd (omega arith)
drop_all (suc n) (x ∷ xs) h = drop_all n xs (omega arith)

pub slice_then_drop {ℓ} :
    {A : Type ℓ} (i j : ℕ) (xs : List A) → i ≤ j → slice i j xs ++ drop j xs ≡ drop i xs
slice_then_drop i j xs p =
    let e : i + (j - i) ≡ j = omega arith in
    ap (λ ys. slice i j xs ++ ys) (ap (λ n. drop n xs) (sym e) ∙ sym (drop-drop i (j - i) xs))
    ∙ take-append-drop (j - i) (drop i xs)
