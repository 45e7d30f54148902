-- ===== src/Common/Lists.antt =====
-- Lists measured and indexed by native numbers, under the library's names.
use Prim.Native.Nat.{◌≤◌, ℕ, zero, suc, ◌+◌, ◌-◌, ◌<◌, min}
use mathlib.Core.Path.{◌∙◌, ◌≡◌, refl, ap, subst}
use mathlib.Core.Option.{some-injective, Option, none, some}
use mathlib.Core.List.{List, [], ◌∷◌, ◌++◌, map}
use mathlib.Core.Bool.{Bool, true, false, ◌&&◌}
use native.Mathlib.Omega.{arith}
use native.Mathlib.Nat.{add-zero, suc-add, zero-add}

module _ {ℓ} {A : Type ℓ} where
  abbrev pub length : List A → ℕ
  length [] = 0
  length (x ∷ xs) = suc (length xs)

  abbrev pub get_elem? : List A → ℕ → Option A
  get_elem? [] i = none
  get_elem? (x ∷ xs) zero = some x
  get_elem? (x ∷ xs) (suc i) = get_elem? xs i

  abbrev pub take : ℕ → List A → List A
  take zero xs = []
  take (suc n) [] = []
  take (suc n) (x ∷ xs) = x ∷ take n xs

  abbrev pub drop : ℕ → List A → List A
  drop zero xs = xs
  drop (suc n) [] = []
  drop (suc n) (x ∷ xs) = drop n xs

  -- `xs.slice(start, end)` for offsets that are not negative
  abbrev pub slice : ℕ → ℕ → List A → List A
  slice start end xs = take (end - start) (drop start xs)

  abbrev pub all : (A → Bool) → List A → Bool
  all p [] = true
  all p (x ∷ xs) = p x && all p xs

module _ {ℓ} {A : Type ℓ} where
  pub length-append : (xs ys : List A) → length (xs ++ ys) ≡ length xs + length ys
  length-append [] ys = omega arith
  length-append (x ∷ xs) ys = omega (arith, length-append xs ys)

  pub take-append-drop : (n : ℕ) (xs : List A) → take n xs ++ drop n xs ≡ xs
  take-append-drop zero xs = refl
  take-append-drop (suc n) [] = refl
  take-append-drop (suc n) (x ∷ xs) = ap (λ ys. x ∷ ys) (take-append-drop n xs)

  pub length-take : (n : ℕ) (xs : List A) → length (take n xs) ≡ min n (length xs)
  length-take zero xs = omega arith
  length-take (suc n) [] = omega arith
  length-take (suc n) (x ∷ xs) = omega (arith, length-take n xs)

  pub length-drop : (n : ℕ) (xs : List A) → length (drop n xs) ≡ length xs - n
  length-drop zero xs = omega arith
  length-drop (suc n) [] = omega arith
  length-drop (suc n) (x ∷ xs) = omega (arith, length-drop n xs)

  pub get_elem?-append :
      (xs : List A) (y : A) (ys : List A) → get_elem? (xs ++ y ∷ ys) (length xs) ≡ some y
  get_elem?-append [] y ys = refl
  get_elem?-append (x ∷ xs) y ys = get_elem?-append xs y ys

  pub get_elem?-lt : (xs : List A) (i : ℕ) {x : A} → get_elem? xs i ≡ some x → i < length xs
  get_elem?-lt [] i h = ground arith
  get_elem?-lt (y ∷ xs) zero h = omega arith
  get_elem?-lt (y ∷ xs) (suc i) h = omega (arith, get_elem?-lt xs i h)

  pub get_elem?_total : (xs : List A) (i : ℕ) → i < length xs → (x : A) × (get_elem? xs i ≡ some x)
  get_elem?_total [] i h = absurd (omega arith)
  get_elem?_total (y ∷ xs) zero h = (y, refl)
  get_elem?_total (y ∷ xs) (suc i) h = get_elem?_total xs i (omega arith)

module _ {ℓ κ} {A : Type ℓ} {B : Type κ} where
  pub length-map : (f : A → B) (xs : List A) → length (map f xs) ≡ length xs
  length-map f [] = refl
  length-map f (x ∷ xs) = ap suc (length-map f xs)

  pub get_elem?-map :
      (f : A → B) (xs : List A) (i : ℕ) {y : B}
      → get_elem? (map f xs) i ≡ some y
      → (x : A) × (get_elem? xs i ≡ some x) × (f x ≡ y)
  get_elem?-map f [] i h = ground arith
  get_elem?-map f (x ∷ xs) zero h = (x, refl, ground arith)
  get_elem?-map f (x ∷ xs) (suc i) h = get_elem?-map f xs i h

module _ {ℓ κ} {A : Type ℓ} (P : A → Type κ) where
  abbrev pub All : List A → Type κ
  All [] = Unit
  All (x ∷ xs) = P x × All xs

  pub All-append : (xs ys : List A) → All xs → All ys → All (xs ++ ys)
  All-append [] ys _ h = h
  All-append (x ∷ xs) ys (p, h) k = (p, All-append xs ys h k)

  pub All-append_split : (xs ys : List A) → All (xs ++ ys) → All xs × All ys
  All-append_split [] ys h = (tt, h)
  All-append_split (x ∷ xs) ys (p, h) = let (hx, hy) = All-append_split xs ys h in ((p, hx), hy)

module _ {ℓ} {A : Type ℓ} where
  pub get_elem?-drop : (k c : ℕ) (xs : List A) → get_elem? (drop k xs) c ≡ get_elem? xs (k + c)
  get_elem?-drop zero c xs = rw zero-add
  get_elem?-drop (suc k) c [] = refl
  get_elem?-drop (suc k) c (x ∷ xs) = rw suc-add (get_elem?-drop k c xs)

  pub take-suc :
      (c : ℕ) (xs : List A) {x : A}
      → get_elem? xs c ≡ some x
      → take (suc c) xs ≡ take c xs ++ x ∷ []
  take-suc c [] h = ground arith
  take-suc zero (y ∷ xs) h = ground arith
  take-suc (suc c) (y ∷ xs) h = ap (λ ys. y ∷ ys) (take-suc c xs h)

  pub slice_add : (k c : ℕ) (xs : List A) → slice k (k + c) xs ≡ take c (drop k xs)
  slice_add k c xs = let e : k + c - k ≡ c = omega arith in rw e refl

  pub slice-suc :
      (k c : ℕ) (xs : List A) {x : A}
      → get_elem? xs (k + c) ≡ some x
      → slice k (k + (c + 1)) xs ≡ slice k (k + c) xs ++ x ∷ []
  slice-suc k c xs h =
      let e : c + 1 ≡ suc c = omega arith in
      rw (slice_add, slice_add, e) (take-suc c (drop k xs) (get_elem?-drop k c xs ∙ h))

  pub slice_one :
      (k : ℕ) (xs : List A) {x : A} → get_elem? xs k ≡ some x → slice k (k + 1) xs ≡ x ∷ []
  slice_one k xs h =
      let at : get_elem? (drop k xs) 0 ≡ some _ = get_elem?-drop k 0 xs ∙ (rw add-zero h) in
      slice_add k 1 xs ∙ take-suc 0 (drop k xs) at

  -- `xs.slice(-n)`: the last `n` items
  abbrev pub take_last : ℕ → List A → List A
  take_last n xs = drop (length xs - n) xs

  -- `xs.slice(0, -1)`
  abbrev pub init : List A → List A
  init [] = []
  init (x ∷ []) = []
  init (x ∷ y ∷ xs) = x ∷ init (y ∷ xs)

  -- `xs.at(-1)`
  abbrev pub last? : List A → Option A
  last? [] = none
  last? (x ∷ []) = some x
  last? (x ∷ y ∷ xs) = last? (y ∷ xs)

  -- `xs.filter(p)`
  abbrev pub keep : (A → Bool) → List A → List A
  keep p [] = []
  keep p (x ∷ xs) = elim (p x) [ true ↦ x ∷ keep p xs | false ↦ keep p xs ]

  pub length-keep-le : (p : A → Bool) (xs : List A) → length (keep p xs) ≤ length xs
  length-keep-le p [] = omega arith
  length-keep-le p (x ∷ xs) = ground (arith, length-keep-le p xs)

  pub length-take_last : (n : ℕ) (xs : List A) → length (take_last n xs) ≡ min n (length xs)
  length-take_last n xs = omega (arith, length-drop (length xs - n) xs)

  pub init-append : (xs : List A) (x : A) → init (xs ++ x ∷ []) ≡ xs
  init-append [] x = refl
  init-append (y ∷ []) x = refl
  init-append (y ∷ z ∷ xs) x = ap (λ ys. y ∷ ys) (init-append (z ∷ xs) x)

  pub last?-append : (xs : List A) (x : A) → last? (xs ++ x ∷ []) ≡ some x
  last?-append [] x = refl
  last?-append (y ∷ []) x = refl
  last?-append (y ∷ z ∷ xs) x = last?-append (z ∷ xs) x

  pub append_of_last? : (xs : List A) {x : A} → last? xs ≡ some x → init xs ++ x ∷ [] ≡ xs
  append_of_last? [] h = absurd (cc)
  append_of_last? (y ∷ []) h = ground arith
  append_of_last? (y ∷ z ∷ xs) h = ap (λ ys. y ∷ ys) (append_of_last? (z ∷ xs) h)

  pub length-init-le : (xs : List A) → length (init xs) ≤ length xs
  length-init-le [] = omega arith
  length-init-le (x ∷ []) = omega arith
  length-init-le (x ∷ y ∷ xs) = omega (arith, length-init-le (y ∷ xs))

  pub take_last_of_le : (n : ℕ) (xs : List A) → length xs ≤ n → take_last n xs ≡ xs
  take_last_of_le n xs h = let e : length xs - n ≡ 0 = omega arith in rw e

  pub drop-append : (k : ℕ) (xs ys : List A) → k ≤ length xs → drop k (xs ++ ys) ≡ drop k xs ++ ys
  drop-append zero xs ys h = refl
  drop-append (suc k) [] ys h = absurd (omega arith)
  drop-append (suc k) (x ∷ xs) ys h = drop-append k xs ys (omega arith)

  -- The last items of a list with one more item.
  pub take_last-append :
      (n : ℕ) (xs : List A) (x : A) → take_last (suc n) (xs ++ x ∷ []) ≡ take_last n xs ++ x ∷ []
  take_last-append n xs x =
      let e : length (xs ++ x ∷ []) - suc n ≡ length xs - n =
        omega (arith, length-append xs (x ∷ [])) in
      rw e (drop-append (length xs - n) xs (x ∷ []) (omega arith))

  -- A list from an index on, with its first item.
  pub drop-cons :
      (i : ℕ) (xs : List A)
      → i < length xs
      → (x : A) × (get_elem? xs i ≡ some x) × (drop i xs ≡ x ∷ drop (i + 1) xs)
  drop-cons i [] h = absurd (omega arith)
  drop-cons zero (x ∷ xs) h = (x, refl, refl)
  drop-cons (suc i) (x ∷ xs) h =
      let (y, at, is) = drop-cons i xs (omega arith) in (y, at, rw suc-add is)

  pub drop_tail :
      (i : ℕ) (xs : List A) {y : A} {ys : List A}
      → drop i xs ≡ y ∷ ys
      → (drop (i + 1) xs ≡ ys) × (i < length xs)
  drop_tail zero [] h = absurd (cc)
  drop_tail (suc i) [] h = absurd (cc)
  drop_tail zero (x ∷ xs) h = (ground arith, omega arith)
  drop_tail (suc i) (x ∷ xs) h = let (a, b) = drop_tail i xs h in (rw suc-add a, omega (arith, b))

module _ {ℓ κ} {A : Type ℓ} (P : A → Type κ) where
  pub All-get_elem? : (xs : List A) (i : ℕ) (x : A) → All P xs → get_elem? xs i ≡ some x → P x
  All-get_elem? [] i x h at = absurd (cc)
  All-get_elem? (y ∷ xs) zero x (p, h) at = subst P (some-injective y x at) p
  All-get_elem? (y ∷ xs) (suc i) x (p, h) at = All-get_elem? xs i x h at
