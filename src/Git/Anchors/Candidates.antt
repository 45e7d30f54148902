-- ===== src/Git/Anchors/Candidates.antt =====
-- The candidates for anchors rise on the head's side and join equal blocks.
use noto.Common.{
  ℕ, zero, suc, ◌+◌, ◌≤◌, ◌<◌, ◌≡◌, refl, sym, ◌∙◌, inl, inr, not, ◌&&◌, some, List, [], ◌∷◌, arith,
  Bool-cases, Option-cases, ◌==◌, nat_eq, list_beq_iff, list_eq, get_elem?, Text,
}
use noto.Common.Maps.{lookup, insert, lookup-insert}
use noto.Git.Pairs.{Middle, Middle-end}
use noto.Git.Anchors.{Seen, count_head, count_current, candidates_from, value_at}

module _ (head current : List Text) (h_end c_start c_end : ℕ) where
  -- What the map says of the current note is so.
  abbrev pub IsSeen : List (Text × Seen) → Type 0
  IsSeen seen =
      (k : Text) (e : Seen) (at : ℕ)
      → lookup k seen ≡ some e
      → e.current ≡ some at
      → (c_start ≤ at) × (at < c_end) × (get_elem? current at ≡ some k)

  pub IsSeen-nil : IsSeen []
  unfolding lookup
  IsSeen-nil k e at h l = absurd (cc)

  -- an entry that says the same of the current note, or something that is so
  IsSeen-insert :
      (seen : List (Text × Seen)) (x : Text) (entry : Seen)
      → IsSeen seen
      → ((at : ℕ)
          → entry.current ≡ some at
          → (c_start ≤ at) × (at < c_end) × (get_elem? current at ≡ some x))
      → IsSeen (insert x entry seen)
  IsSeen-insert seen x entry s new k e at h l = elim (Bool-cases (x == k)) [
    | inl same ↦
        let is_x : x ≡ k = (list_beq_iff x k).0 same in
        let is_entry : entry ≡ e = ground (arith, lookup-insert x k entry seen) in
        rw (← is_x) (new at (ground arith))
    | inr other ↦ s k e at (ground (arith, lookup-insert x k entry seen)) l
  ]

  pub count_head-IsSeen :
      (index : ℕ) (xs : List Text) (seen : List (Text × Seen))
      → IsSeen seen
      → IsSeen (count_head index xs seen)
  unfolding count_head
  count_head-IsSeen index [] seen s = s
  count_head-IsSeen index (x ∷ xs) seen s = elim (Option-cases (lookup x seen)) [
    | inl e ↦
        rw (e, count_head)
          (count_head-IsSeen (index + 1) xs _ (IsSeen-insert seen x _ s (λ at l. absurd (cc))))
    | inr (entry, e) ↦
        rw (e, count_head)
          (count_head-IsSeen (index + 1) xs _ (IsSeen-insert seen x _ s (λ at l. s x entry at e l)))
  ]

  pub count_current-IsSeen :
      (index : ℕ) (ys : List Text) (seen : List (Text × Seen))
      → c_start ≤ index
      → Middle current index c_end ys
      → IsSeen seen
      → IsSeen (count_current index ys seen)
  unfolding count_current
  count_current-IsSeen index [] seen p m s = s
  count_current-IsSeen index (y ∷ ys) seen p (to, m) s = elim (Option-cases (lookup y seen)) [
    | inl e ↦ rw (e, count_current) (count_current-IsSeen (index + 1) ys seen (omega arith) m s)
    | inr (entry, e) ↦
        let last = Middle-end current (index + 1) c_end ys m in
        rw (e, count_current)
          (count_current-IsSeen (index + 1) ys _ (omega arith) m (
            IsSeen-insert seen y _ s
              λ at l. let is : index ≡ at = ground arith in rw (← is) (p, omega (arith, last), to)))
  ]

  -- Candidates rise on the head's side, and each joins equal blocks.
  abbrev pub IsCandidates : ℕ → List (ℕ × ℕ) → Type 0
  IsCandidates h [] = Unit
  IsCandidates h ((i, j) ∷ rest) =
      (h ≤ i)
      × (i < h_end)
      × (c_start ≤ j)
      × (j < c_end)
      × (get_elem? head i ≡ get_elem? current j)
      × IsCandidates (i + 1) rest

  IsCandidates-weaken :
      (h h' : ℕ) (cs : List (ℕ × ℕ)) → h ≤ h' → IsCandidates h' cs → IsCandidates h cs
  IsCandidates-weaken h h' [] p c = tt
  IsCandidates-weaken h h' ((i, j) ∷ cs) p (a, b, l, r, same, rest) =
      (omega arith, b, l, r, same, rest)

  pub candidates_from-IsCandidates :
      (index : ℕ) (xs : List Text) (seen : List (Text × Seen))
      → IsSeen seen
      → Middle head index h_end xs
      → IsCandidates index (candidates_from index xs seen)
  unfolding candidates_from
  candidates_from-IsCandidates index [] seen s m = tt
  candidates_from-IsCandidates index (x ∷ xs) seen s (at, m) =
      let rest = candidates_from-IsCandidates (index + 1) xs seen s m in
      let last = Middle-end head (index + 1) h_end xs m in
      elim (Option-cases (lookup x seen)) [
        | inl e ↦
            rw (e, candidates_from) (IsCandidates-weaken index (index + 1) _ (omega arith) rest)
        | inr (entry, e) ↦ elim (Option-cases entry.current) [
          | inl none_seen ↦
              rw (e, none_seen, candidates_from)
                (IsCandidates-weaken index (index + 1) _ (omega arith) rest)
          | inr (j, at_j) ↦
              let (lo, hi, to) = s x entry j e at_j in
              elim (Bool-cases
                (entry.head == index && (entry.head_count == 1 && entry.current_count == 1))) [
                  | inl is ↦
                      rw (e, at_j, is, candidates_from)
                        (omega arith, omega (arith, last), lo, hi, at ∙ sym to, rest)
                  | inr not ↦
                      rw (e, at_j, not, candidates_from)
                        (IsCandidates-weaken index (index + 1) _ (omega arith) rest)
                ]
        ]
      ]

  -- The candidate at a place, and those before it.
  pub candidate_at :
      (h : ℕ) (cs : List (ℕ × ℕ)) (k i j : ℕ)
      → IsCandidates h cs
      → get_elem? cs k ≡ some (i, j)
      → (h ≤ i)
        × (i < h_end)
        × (c_start ≤ j)
        × (j < c_end)
        × (get_elem? head i ≡ get_elem? current j)
        × (value_at cs k ≡ j)
  candidate_at h [] k i j c e = absurd (cc)
  candidate_at h ((i', j') ∷ cs) zero i j (a, b, l, r, same, rest) e =
      let is_i : i' ≡ i = ground arith in
      let is_j : j' ≡ j = ground arith in rw (← is_i, ← is_j) (a, b, l, r, same, refl)
  candidate_at h ((i', j') ∷ cs) (suc k) i j (a, b, l, r, same, rest) e =
      let (a', b', l', r', same', is) = candidate_at (i' + 1) cs k i j rest e in
      (omega arith, b', l', r', same', is)

  pub candidates_rise :
      (h : ℕ) (cs : List (ℕ × ℕ)) (p k : ℕ) (a b : ℕ × ℕ)
      → IsCandidates h cs
      → p < k
      → get_elem? cs p ≡ some a
      → get_elem? cs k ≡ some b
      → a.0 < b.0
  candidates_rise h [] p k a b c l e e' = absurd (cc)
  candidates_rise h ((i, j) ∷ cs) zero zero a b c l e e' = absurd (omega arith)
  candidates_rise h ((i, j) ∷ cs) (suc p) zero a b c l e e' = absurd (omega arith)
  candidates_rise h ((i, j) ∷ cs) zero (suc k) a b (_, _, _, _, _, rest) l e e' =
      let (low, _, _, _, _, _) = candidate_at (i + 1) cs k b.0 b.1 rest e' in
      let is : i ≡ a.0 = ground arith in omega arith
  candidates_rise h ((i, j) ∷ cs) (suc p) (suc k) a b (_, _, _, _, _, rest) l e e' =
      candidates_rise (i + 1) cs p k a b rest (omega arith) e e'
