-- ===== src/Serialize/Region/Runs.antt =====
-- The runs of units that are copied: the prefix and the suffix are blocks that stand one after another.
use noto.Common.{
  ◌≤◌, ◌-◌, take_all, sym, length, drop, take-append-drop, length-drop, ℕ, zero, suc, ◌+◌, ◌≡◌, ap,
  ◌∙◌, inl, inr, true, ◌&&◌, some, List, [], ◌∷◌, arith, nat_beq_iff, Bool-cases, Option-cases,
  nat_eq, bool_eq, list_eq, get_elem?, take,
}
use mathlib.Core.List.{reverse, reverse_aux, reverse-append, reverse-reverse}
use mathlib.Core.Path.{subst, subst₂}
use noto.Common.Joins.{take-append}
use noto.Contracts.{Block, Document, EditUnit}
use noto.Serialize.Units.{is_pristine, origin_block, pristine_unit}
use noto.Serialize.Identity.{has_ordinal}
use noto.Serialize.Region.{pristine_suffix_len, run_up, run_down}

-- A unit that is the block at a place, unchanged.
abbrev pub IsCopy : Document → ℕ → EditUnit → Type 0
IsCopy d n u =
    (block : Block) × (get_elem? d.blocks n ≡ some block)
    × (origin_block d u ≡ some block)
    × (pristine_unit d u ≡ true)

-- Units that are the blocks from a place on.
abbrev pub RunUp : Document → ℕ → List EditUnit → Type 0
RunUp d n [] = Unit
RunUp d n (u ∷ units) = IsCopy d n u × RunUp d (n + 1) units

-- Units that are the blocks before a place, from the last one back.
abbrev RunDown : Document → ℕ → List EditUnit → Type 0
RunDown d n [] = Unit
RunDown d zero (u ∷ units) = ⊥
RunDown d (suc n) (u ∷ units) = IsCopy d n u × RunDown d n units

copied_unit :
    (d : Document) (n : ℕ) (u : EditUnit)
    → (has_ordinal n u && is_pristine u (get_elem? d.blocks n)) ≡ true
    → IsCopy d n u
unfolding is_pristine
copied_unit d n u h = elim (Option-cases u.origin) [
  | inl x ↦ absurd (cc (rw (x) at h))
  | inr (origin, x) ↦ elim (Option-cases (get_elem? d.blocks n)) [
    | inl y ↦ absurd (ground (arith, rw (x, y) at h))
    | inr (block, y) ↦
        let place : origin.ordinal ≡ n =
          ground (arith, rw (x) at h, nat_beq_iff origin.ordinal n) in
        let here : origin_block d u ≡ some block = rw (x) (ap (get_elem? d.blocks) place ∙ y) in
        let clean : is_pristine u (some block) ≡ true = ground (arith, rw (x, y) at h) in
        (block, y, here, ap (is_pristine u) here ∙ clean)
  ]
]

pub RunUp-run_up :
    (d : Document) (n : ℕ) (units : List EditUnit) → RunUp d n (take (run_up d n units) units)
unfolding run_up
RunUp-run_up d n [] = tt
RunUp-run_up d n (u ∷ units) =
    elim (Bool-cases (has_ordinal n u && is_pristine u (get_elem? d.blocks n))) [
      | inl h ↦ rw (h) (copied_unit d n u h, RunUp-run_up d (n + 1) units)
      | inr h ↦ rw (h) tt
    ]

RunDown-run_down :
    (d : Document) (n : ℕ) (units : List EditUnit) → RunDown d n (take (run_down d n units) units)
unfolding run_down
RunDown-run_down d n [] = tt
RunDown-run_down d zero (u ∷ units) = tt
RunDown-run_down d (suc n) (u ∷ units) =
    elim (Bool-cases (has_ordinal n u && is_pristine u (get_elem? d.blocks n))) [
      | inl h ↦ rw (h) (copied_unit d n u h, RunDown-run_down d n units)
      | inr h ↦ rw (h) tt
    ]

length-reverse_aux :
    {A : Type 0} (xs ys : List A) → length (reverse_aux xs ys) ≡ length xs + length ys
length-reverse_aux [] ys = omega arith
length-reverse_aux (x ∷ xs) ys = omega (arith, length-reverse_aux xs (x ∷ ys))

length-reverse : {A : Type 0} (xs : List A) → length (reverse xs) ≡ length xs
length-reverse xs = omega (arith, length-reverse_aux xs [])

run_down-le :
    (d : Document) (n : ℕ) (units : List EditUnit)
    → (run_down d n units ≤ n) × (run_down d n units ≤ length units)
unfolding run_down
run_down-le d n [] = (omega arith, omega arith)
run_down-le d zero (u ∷ units) = (omega arith, omega arith)
run_down-le d (suc n) (u ∷ units) =
    let (p, q) = run_down-le d n units in
    elim (Bool-cases (has_ordinal n u && is_pristine u (get_elem? d.blocks n))) [
      | inl h ↦ rw (h) (omega arith, omega arith)
      | inr h ↦ rw (h) (omega arith, omega arith)
    ]

RunUp-reverse_aux :
    (d : Document) (n : ℕ) (xs ys : List EditUnit)
    → RunDown d n xs
    → RunUp d n ys
    → RunUp d (n - length xs) (reverse_aux xs ys)
RunUp-reverse_aux d n [] ys h k =
    let e : n ≡ n - 0 = omega arith in subst (λ (m : ℕ). RunUp d m ys) e k
RunUp-reverse_aux d zero (x ∷ xs) ys h k = elim h [ ]
RunUp-reverse_aux d (suc n) (x ∷ xs) ys (c, h) k =
    let e : suc n ≡ n + 1 = omega arith in
    let f : n - length xs ≡ suc n - length (x ∷ xs) = omega arith in
    subst (λ (m : ℕ). RunUp d m (reverse_aux xs (x ∷ ys))) f
      (RunUp-reverse_aux d n xs (x ∷ ys) h (c, subst (λ (m : ℕ). RunUp d m ys) e k))

-- The last items of a list, read from its end.
take-reverse :
    {A : Type 0} (k : ℕ) (xs : List A)
    → k ≤ length xs
    → take k (reverse xs) ≡ reverse (drop (length xs - k) xs)
take-reverse k xs h =
    let front = take (length xs - k) xs in
    let back = drop (length xs - k) xs in
    let size : length (reverse back) ≡ k =
      omega (arith, length-reverse back, length-drop (length xs - k) xs) in
    ap (λ ys. take k (reverse ys)) (sym (take-append-drop (length xs - k) xs))
    ∙ ap (take k) (reverse-append front back)
    ∙ take-append k (reverse back) (reverse front) (omega (arith, size))
    ∙ take_all k (reverse back) (omega (arith, size))

-- The suffix: the blocks up to the last one.
pub RunUp-pristine_suffix_len :
    (d : Document) (units : List EditUnit)
    → (let count = pristine_suffix_len d units in
        (count ≤ length units)
        × (count ≤ length d.blocks)
        × RunUp d (length d.blocks - count) (drop (length units - count) units))
RunUp-pristine_suffix_len d units =
    let count = pristine_suffix_len d units in
    let (p, q) = run_down-le d (length d.blocks) (reverse units) in
    let short : count ≤ length units = omega (arith, q, length-reverse units) in
    let back = drop (length units - count) units in
    let down : RunDown d (length d.blocks) (reverse back) =
      subst (RunDown d (length d.blocks)) (take-reverse count units short)
        (RunDown-run_down d (length d.blocks) (reverse units)) in
    let size : length (reverse back) ≡ count =
      omega (arith, short, length-reverse back, length-drop (length units - count) units) in
    (
      short,
      p,
      subst₂ (RunUp d) (ap (λ (m : ℕ). length d.blocks - m) size) (reverse-reverse back)
          (RunUp-reverse_aux d (length d.blocks) (reverse back) [] down tt),
    )
