-- ===== src/Git/Anchors/Chain.antt =====
-- The chain of anchors of block-diff.ts, and its fuel.
use noto.Common.{
  ℕ, zero, suc, ◌+◌, ◌<◌, ◌≡◌, refl, inl, inr, Option, none, some, List, [], ◌∷◌, arith,
  Option-cases, nat_eq, list_eq, length, get_elem?, Text,
}
use noto.Git.Pairs.{Aligned, Middle}
use noto.Git.Anchors.{
  previous_at, patience, chain, last_top, unique_anchors, count_head, count_current,
  candidates_from,
}
use noto.Git.Anchors.Order.{IsBackward, AllBelow, patience_lem}
use noto.Git.Anchors.Candidates.{
  IsCandidates, candidate_at, candidates_rise, IsSeen-nil, count_head-IsSeen, count_current-IsSeen,
  candidates_from-IsCandidates,
}

-- Every entry names an earlier place.
abbrev IsEarlier : List (Option ℕ) → Type 0
IsEarlier previous = (k p : ℕ) → previous_at previous k ≡ some p → p < k

abbrev IsBelow : ℕ → Option ℕ → Type 0
IsBelow n none = Unit
IsBelow n (some k) = k < n

IsBelow-intro : (n : ℕ) (o : Option ℕ) → ((p : ℕ) → o ≡ some p → p < n) → IsBelow n o
IsBelow-intro n none h = tt
IsBelow-intro n (some p) h = h p refl

-- More fuel than the index gives the same chain.
chain_fuel :
    (candidates : List (ℕ × ℕ)) (previous : List (Option ℕ)) (fuel more : ℕ) (o : Option ℕ)
    (anchors : List (ℕ × ℕ))
    → IsEarlier previous
    → IsBelow fuel o
    → chain candidates previous (fuel + more) o anchors ≡ chain candidates previous fuel o anchors
unfolding chain
chain_fuel candidates previous fuel more none anchors b l = refl
chain_fuel candidates previous zero more (some k) anchors b l = absurd (omega arith)
chain_fuel candidates previous (suc fuel) more (some k) anchors b l =
    let e : suc fuel + more ≡ suc (fuel + more) = omega arith in
    elim (Option-cases (get_elem? candidates k)) [
      | inl n ↦ rw (e, n, chain)
      | inr (pair, n) ↦
          rw (e, n, chain)
            (chain_fuel candidates previous fuel more (previous_at previous k) (pair ∷ anchors) b
              (IsBelow-intro fuel (previous_at previous k) (λ p at. omega (arith, b k p at))))
    ]

module _ (head current : List Text) (h_start h_end c_start c_end : ℕ)
    (candidates : List (ℕ × ℕ)) where
  -- What was collected stands behind the candidate that comes next.
  abbrev IsBehind : Option ℕ → List (ℕ × ℕ) → Type 0
  IsBehind none anchors = Unit
  IsBehind (some k) anchors =
      (pair : ℕ × ℕ)
      → get_elem? candidates k ≡ some pair
      → Aligned head current (pair.0 + 1) (pair.1 + 1) h_end c_end anchors

  IsBehind-intro :
      (o : Option ℕ) (anchors : List (ℕ × ℕ))
      → ((p : ℕ) → o ≡ some p → IsBehind (some p) anchors)
      → IsBehind o anchors
  IsBehind-intro none anchors h = tt
  IsBehind-intro (some p) anchors h = h p refl

  pub chain-Aligned :
      (previous : List (Option ℕ)) (fuel : ℕ) (o : Option ℕ) (anchors : List (ℕ × ℕ))
      → IsCandidates head current h_end c_start c_end h_start candidates
      → IsBackward candidates previous
      → Aligned head current h_start c_start h_end c_end anchors
      → IsBehind o anchors
      → Aligned head current h_start c_start h_end c_end (chain candidates previous fuel o anchors)
  unfolding chain
  chain-Aligned previous fuel none anchors c b a n = a
  chain-Aligned previous zero (some k) anchors c b a n = a
  chain-Aligned previous (suc fuel) (some k) anchors c b a n =
      elim (Option-cases (get_elem? candidates k)) [
        | inl e ↦ rw (e, chain) a
        | inr ((i, j), e) ↦
            let (lo, hi, lo', hi', same, is) =
              candidate_at head current h_end c_start c_end h_start candidates k i j c e in
            rw (e, chain)
              (chain-Aligned previous fuel (previous_at previous k) ((i, j) ∷ anchors) c b
                (lo, lo', hi, hi', same, n (i, j) e)
                (IsBehind-intro (previous_at previous k) ((i, j) ∷ anchors) (λ p at pair there.
                  let (earlier, smaller) = b k p at in
                  let low =
                    candidates_rise head current h_end c_start c_end h_start candidates p k pair
                      (i, j) c earlier there e in
                  let (_, _, _, _, _, is') =
                    candidate_at head current h_end c_start c_end h_start candidates p pair.0 pair.1
                      c there in
                  (omega arith, omega (arith, smaller, is, is'), hi, hi', same, n (i, j) e))))
      ]

IsBackward-nil : (candidates : List (ℕ × ℕ)) → IsBackward candidates []
IsBackward-nil candidates k p h = absurd (cc)

-- The anchors of two middles join equal blocks, in order on both sides, and lie within the middles.
pub unique_anchors-Aligned :
    (head current : List Text) (start current_start h_end c_end : ℕ) (xs ys : List Text)
    → Middle head start h_end xs
    → Middle current current_start c_end ys
    → Aligned head current start current_start h_end c_end
        (unique_anchors start current_start xs ys)
unfolding unique_anchors
unique_anchors-Aligned head current start current_start h_end c_end xs ys m n =
    let s =
      count_current-IsSeen head current h_end current_start c_end current_start ys
        (count_head start xs []) (omega arith) n
        (count_head-IsSeen head current h_end current_start c_end start xs []
          (IsSeen-nil head current h_end current_start c_end)) in
    let cs = candidates_from start xs (count_current current_start ys (count_head start xs [])) in
    let c = candidates_from-IsCandidates head current h_end current_start c_end start xs _ s m in
    let (b, below) = patience_lem cs 0 cs [] [] refl refl (IsBackward-nil cs) tt in
    chain-Aligned head current start h_end current_start c_end cs _ (suc (length cs)) _ [] c b tt
      (IsBehind-intro head current start h_end current_start c_end cs _ [] (λ p at pair there. tt))

last_top-AllBelow :
    (n : ℕ) (tops : List ℕ) (p : ℕ) → AllBelow n tops → last_top tops ≡ some p → p < n
last_top-AllBelow n [] p a h = absurd (cc)
last_top-AllBelow n (t ∷ []) p (l, a) h = ground arith
last_top-AllBelow n (t ∷ u ∷ ts) p (l, a) h = last_top-AllBelow n (u ∷ ts) p a h

-- The chain that the patience sort ends with is complete: more fuel gives the same anchors.
pub chain-patience_fuel :
    (candidates : List (ℕ × ℕ)) (more : ℕ)
    → chain candidates
        (patience candidates 0 candidates [] []).1
        (suc (length candidates) + more)
        (last_top (patience candidates 0 candidates [] []).0)
        []
      ≡ chain candidates
          (patience candidates 0 candidates [] []).1
          (suc (length candidates))
          (last_top (patience candidates 0 candidates [] []).0)
          []
chain-patience_fuel cs more =
    let (b, below) = patience_lem cs 0 cs [] [] refl refl (IsBackward-nil cs) tt in
    chain_fuel cs _ (suc (length cs)) more _ [] (λ k p at. (b k p at).0)
      (IsBelow-intro (suc (length cs)) _
        (λ (p : ℕ) at. omega (arith, last_top-AllBelow _ (patience cs 0 cs [] []).0 p below at)))
