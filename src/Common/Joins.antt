-- ===== src/Common/Joins.antt =====
-- Slices of a list that is put together of two.
use Prim.Native.Nat.{ℕ, zero, suc, ◌+◌, ◌-◌, ◌≤◌}
use mathlib.Core.Path.{◌≡◌, refl, sym, ap, ◌∙◌}
use mathlib.Core.List.{List, [], ◌∷◌, ◌++◌}
use native.Mathlib.Omega.{arith}
use noto.Common.Lists.{
  length, take, drop, slice, drop-append, length-drop, length-take, take-append-drop,
}
use noto.Common.Slices.{drop-drop, drop_all, take_all}

module _ {ℓ} {A : Type ℓ} where
  pub take-append : (k : ℕ) (xs ys : List A) → k ≤ length xs → take k (xs ++ ys) ≡ take k xs
  take-append zero xs ys h = refl
  take-append (suc k) [] ys h = absurd (omega arith)
  take-append (suc k) (x ∷ xs) ys h = ap (λ zs. x ∷ zs) (take-append k xs ys (omega arith))

  -- What lies in the first part.
  pub slice_of_left :
      (i j : ℕ) (xs ys : List A) → i ≤ j → j ≤ length xs → slice i j (xs ++ ys) ≡ slice i j xs
  slice_of_left i j xs ys p q =
      ap (take (j - i)) (drop-append i xs ys (omega arith))
      ∙ take-append (j - i) (drop i xs) ys (omega (arith, length-drop i xs))

  drop_past : (k : ℕ) (xs ys : List A) → drop (length xs + k) (xs ++ ys) ≡ drop k ys
  drop_past k xs ys =
      sym (drop-drop (length xs) k (xs ++ ys))
      ∙ ap (drop k) (
          drop-append (length xs) xs ys (omega arith)
          ∙ ap (λ zs. zs ++ ys) (drop_all (length xs) xs (omega arith)))

  -- What lies in the second part.
  pub slice_of_right :
      (i j k l : ℕ) (xs ys : List A)
      → i ≡ length xs + k
      → j ≡ length xs + l
      → slice i j (xs ++ ys) ≡ slice k l ys
  slice_of_right i j k l xs ys p q =
      let e : j - i ≡ l - k = omega arith in
      ap (λ n. take (j - i) (drop n (xs ++ ys))) p
      ∙ ap (take (j - i)) (drop_past k xs ys)
      ∙ ap (λ n. take n (drop k ys)) e

  -- What lies in the beginning of a list.
  pub slice-take :
      (i j n : ℕ) (xs : List A)
      → i ≤ j
      → j ≤ n
      → j ≤ length xs
      → slice i j (take n xs) ≡ slice i j xs
  slice-take i j n xs p q r =
      sym (slice_of_left i j (take n xs) (drop n xs) p (omega (arith, length-take n xs)))
      ∙ ap (slice i j) (take-append-drop n xs)

  pub slice-drop : (i j n : ℕ) (xs : List A) → slice i j (drop n xs) ≡ slice (n + i) (n + j) xs
  slice-drop i j n xs =
      let e : n + j - (n + i) ≡ j - i = omega arith in
      ap (take (j - i)) (drop-drop n i xs) ∙ ap (λ k. take k (drop (n + i) xs)) (sym e)

  -- The whole of a list.
  pub slice_whole : (xs : List A) → slice 0 (length xs) xs ≡ xs
  slice_whole xs = take_all (length xs - 0) xs (omega arith)
