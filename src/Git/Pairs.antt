-- ===== src/Git/Pairs.antt =====
-- What it means that an alignment of two notes is sound.
use noto.Common.{
  drop-cons, ℕ, zero, suc, ◌+◌, ◌≤◌, ◌<◌, ◌≡◌, some, List, [], ◌∷◌, ◌++◌, arith, nat_eq, list_eq,
  length, get_elem?, take, drop, Text,
}

-- Pairs of indices that rise on both sides, from `h` and `c` on and below `h_end` and `c_end`; each
-- joins equal blocks of the two notes.
abbrev pub Aligned : List Text → List Text → ℕ → ℕ → ℕ → ℕ → List (ℕ × ℕ) → Type 0
Aligned head current h c h_end c_end [] = Unit
Aligned head current h c h_end c_end ((i, j) ∷ pairs) =
    (h ≤ i)
    × (c ≤ j)
    × (i < h_end)
    × (j < c_end)
    × (get_elem? head i ≡ get_elem? current j)
    × Aligned head current (i + 1) (j + 1) h_end c_end pairs

-- `xs` are the blocks of a note from index `i` on, up to an end.
abbrev pub Middle : List Text → ℕ → ℕ → List Text → Type 0
Middle note i end [] = end ≡ i
Middle note i end (x ∷ xs) = (get_elem? note i ≡ some x) × Middle note (i + 1) end xs

pub Middle-end :
    (note : List Text) (i end : ℕ) (xs : List Text) → Middle note i end xs → end ≡ i + length xs
Middle-end note i end [] m = omega arith
Middle-end note i end (x ∷ xs) (_, m) = omega (arith, Middle-end note (i + 1) end xs m)

-- A slice within the note.
pub Middle-take :
    (note : List Text) (i n : ℕ)
    → i + n ≤ length note
    → Middle note i (i + n) (take n (drop i note))
Middle-take note i zero h = omega arith
Middle-take note i (suc n) h =
    let (x, at, is) = drop-cons i note (omega arith) in
    let e : i + suc n ≡ i + 1 + n = omega arith in
    rw (is, e) (at, Middle-take note (i + 1) n (omega arith))

module _ (head current : List Text) where
  pub Aligned-weaken :
      (h c h' c' h_end c_end h_end' c_end' : ℕ) (pairs : List (ℕ × ℕ))
      → h ≤ h'
      → c ≤ c'
      → h_end ≤ h_end'
      → c_end ≤ c_end'
      → Aligned head current h' c' h_end c_end pairs
      → Aligned head current h c h_end' c_end' pairs
  Aligned-weaken h c h' c' h_end c_end h_end' c_end' [] p q r s a = tt
  Aligned-weaken h c h' c' h_end c_end h_end' c_end' ((i, j) ∷ pairs) p q r s
        (a, b, l, k, same, rest) =
      (
        omega arith,
        omega arith,
        omega arith,
        omega arith,
        same,
        Aligned-weaken (i + 1) (j + 1) (i + 1) (j + 1) h_end c_end h_end' c_end' pairs (omega arith)
            (omega arith) r s rest,
      )

  -- One alignment after the other.
  pub Aligned-append :
      (h c h' c' h_end c_end : ℕ) (ps qs : List (ℕ × ℕ))
      → h ≤ h'
      → c ≤ c'
      → h' ≤ h_end
      → c' ≤ c_end
      → Aligned head current h c h' c' ps
      → Aligned head current h' c' h_end c_end qs
      → Aligned head current h c h_end c_end (ps ++ qs)
  Aligned-append h c h' c' h_end c_end [] qs p q r s a b =
      Aligned-weaken h c h' c' h_end c_end h_end c_end qs p q (omega arith) (omega arith) b
  Aligned-append h c h' c' h_end c_end ((i, j) ∷ ps) qs p q r s (a, b, l, k, same, rest) more = (
    a,
    b,
    omega arith,
    omega arith,
    same,
    Aligned-append (i + 1) (j + 1) h' c' h_end c_end ps qs (omega arith) (omega arith) r s rest
        more,
  )
