-- ===== src/Git/Anchors/Order.antt =====
-- What the loop of the patience sort in uniqueAnchors keeps to.
use noto.Common.{
  none, if◌then◌else◌, ◌++◌, drop, drop_tail, length-append, ℕ, zero, suc, ◌+◌, ◌-◌, ◌/◌, ◌≤◌, ◌<◌,
  ◌≡◌, ◌⊎◌, inl, inr, Option, some, List, [], ◌∷◌, arith, ltb, ltb→lt, Bool-cases, nat_eq, list_eq,
  length, All,
}
use native.Mathlib.Nat.{add-zero}
use noto.Git.Anchors.{patience, value_at, top_at, search_top, set_top, previous_at}

-- Every place that `previous` names is before its own, and holds a smaller value.
abbrev pub IsBackward : List (ℕ × ℕ) → List (Option ℕ) → Type 0
IsBackward candidates previous =
    (k p : ℕ)
    → previous_at previous k ≡ some p
    → (p < k) × (value_at candidates p < value_at candidates k)

abbrev pub AllBelow : ℕ → List ℕ → Type 0
AllBelow n tops = All (λ t. t < n) tops

-- What the binary search gives: the top before it is smaller than the value.
search_top_lem :
    (candidates : List (ℕ × ℕ)) (tops : List ℕ) (value fuel low high : ℕ)
    → high ≤ length tops
    → low ≤ length tops
    → (0 < low → value_at candidates (top_at tops (low - 1)) < value)
    → (0 < search_top candidates tops value fuel low high
        → value_at candidates (top_at tops (search_top candidates tops value fuel low high - 1))
          < value)
      × (search_top candidates tops value fuel low high ≤ length tops)
unfolding search_top
search_top_lem candidates tops value zero low high h l s = (s, l)
search_top_lem candidates tops value (suc fuel) low high h l s = elim (Bool-cases (ltb low high)) [
  | inr done ↦ rw (done, search_top) (s, l)
  | inl going ↦
      elim (Bool-cases (ltb (value_at candidates (top_at tops ((low + high) / 2))) value)) [
        | inl up ↦
            rw (going, up, search_top)
              (search_top_lem candidates tops value fuel ((low + high) / 2 + 1) high h
                (ground arith)
                (λ _.
                  let e : (low + high) / 2 + 1 - 1 ≡ (low + high) / 2 = omega arith in
                  rw e (ltb→lt (value_at candidates (top_at tops ((low + high) / 2))) value up)))
        | inr down ↦
            rw (going, down, search_top)
              (search_top_lem candidates tops value fuel low ((low + high) / 2) (ground arith) l s)
      ]
]

AllBelow-top :
    (n : ℕ) (tops : List ℕ) (k : ℕ) → k < length tops → AllBelow n tops → top_at tops k < n
AllBelow-top n [] k h a = absurd (omega arith)
AllBelow-top n (t ∷ tops) zero h (p, a) = p
AllBelow-top n (t ∷ tops) (suc k) h (p, a) = AllBelow-top n tops k (omega arith) a

AllBelow-suc : (n : ℕ) (tops : List ℕ) → AllBelow n tops → AllBelow (n + 1) tops
AllBelow-suc n [] a = tt
AllBelow-suc n (t ∷ tops) (p, a) = (omega arith, AllBelow-suc n tops a)

AllBelow-set :
    (n : ℕ) (tops : List ℕ) (k : ℕ) → AllBelow n tops → AllBelow (n + 1) (set_top tops k n)
unfolding set_top
AllBelow-set n [] k a = (omega arith, tt)
AllBelow-set n (t ∷ tops) zero (p, a) = (omega arith, AllBelow-suc n tops a)
AllBelow-set n (t ∷ tops) (suc k) (p, a) = (omega arith, AllBelow-set n tops k a)

previous_at-append :
    (ps : List (Option ℕ)) (o : Option ℕ) (k p : ℕ)
    → previous_at (ps ++ o ∷ []) k ≡ some p
    → (previous_at ps k ≡ some p) ⊎ ((k ≡ length ps) × (o ≡ some p))
previous_at-append [] o zero p h = inr (omega arith, h)
previous_at-append [] o (suc k) p h = absurd (cc)
previous_at-append (q ∷ ps) o zero p h = inl h
previous_at-append (q ∷ ps) o (suc k) p h = elim (previous_at-append ps o k p h) [
  | inl e ↦ inl e
  | inr (is, e) ↦ inr (omega arith, e)
]

value_at-drop :
    (cs : List (ℕ × ℕ)) (k h value : ℕ) (rest : List (ℕ × ℕ))
    → drop k cs ≡ (h, value) ∷ rest
    → value_at cs k ≡ value
value_at-drop [] zero h value rest e = absurd (cc)
value_at-drop [] (suc k) h value rest e = absurd (cc)
value_at-drop ((i, j) ∷ cs) zero h value rest e = ground arith
value_at-drop ((i, j) ∷ cs) (suc k) h value rest e = value_at-drop cs k h value rest e

-- the top before a place, as `patience` records it
abbrev previous_top : List ℕ → ℕ → Option ℕ
previous_top tops low = if ltb 0 low then some (top_at tops (low - 1)) else none

previous_top-eq :
    (tops : List ℕ) (low p : ℕ)
    → previous_top tops low ≡ some p
    → (0 < low) × (top_at tops (low - 1) ≡ p)
previous_top-eq tops zero p h = absurd (cc)
previous_top-eq tops (suc low) p h = (omega arith, ground arith)

module _ (candidates : List (ℕ × ℕ)) where
  -- One candidate more.
  IsBackward-append :
      (previous : List (Option ℕ)) (o : Option ℕ)
      → IsBackward candidates previous
      → ((p : ℕ)
          → o ≡ some p
          → (p < length previous) × (value_at candidates p < value_at candidates (length previous)))
      → IsBackward candidates (previous ++ o ∷ [])
  IsBackward-append previous o b new k p h = elim (previous_at-append previous o k p h) [
    | inl e ↦ b k p e
    | inr (is, e) ↦ rw is (new p e)
  ]

  pub patience_lem :
      (index : ℕ) (rest : List (ℕ × ℕ)) (tops : List ℕ) (previous : List (Option ℕ))
      → drop index candidates ≡ rest
      → length previous ≡ index
      → IsBackward candidates previous
      → AllBelow index tops
      → IsBackward candidates (patience candidates index rest tops previous).1
        × AllBelow (index + length rest) (patience candidates index rest tops previous).0
  unfolding patience
  patience_lem index [] tops previous d l b a = rw (add-zero index) (b, a)
  patience_lem index ((h, value) ∷ rest) tops previous d l b a =
      let low = search_top candidates tops value (suc (length tops)) 0 (length tops) in
      let (smaller, within) =
        search_top_lem candidates tops value (suc (length tops)) 0 (length tops) (omega arith)
          (omega arith) (λ p. absurd (omega arith)) in
      let is_value = value_at-drop candidates index h value rest d in
      let e : index + suc (length rest) ≡ index + 1 + length rest = omega arith in
      rw e (
        patience_lem (index + 1) rest (set_top tops low index) _ (drop_tail index candidates d).0
          (omega (arith, l, length-append previous (previous_top tops low ∷ [])))
          (IsBackward-append previous (previous_top tops low) b (λ p o.
            let (up, is) = previous_top-eq tops low p o in
            rw (l, ← is)
              (
                AllBelow-top index tops (low - 1) (omega (arith, within, up)) a,
                rw is_value (smaller up),
              )))
          (AllBelow-set index tops low a))
