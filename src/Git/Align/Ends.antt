-- ===== src/Git/Align/Ends.antt =====
-- The common beginning and the common end of two ranges are alignments.
use noto.Common.{
  ℕ, zero, suc, ◌+◌, ◌-◌, ◌≤◌, ◌<◌, ◌≡◌, sym, ap, ◌∙◌, inl, inr, true, ◌&&◌, some, List, arith, ltb,
  leb, Bool-cases, Option-cases, nat_eq, list_beq_iff, list_eq, get_elem?, Text,
}
use native.Mathlib.Nat.{add-zero}
use noto.Git.Pairs.{Aligned}
use noto.Git.Align.{equal_at, common_prefix, common_suffix, run_pairs}

module _ (head current : List Text) where
  equal_at-eq :
      (i j : ℕ) → equal_at head current i j ≡ true → get_elem? head i ≡ get_elem? current j
  unfolding equal_at
  equal_at-eq i j h = elim (Option-cases (get_elem? head i)) [
    | inl e ↦ elim (Option-cases (get_elem? current j)) [
      | inl f ↦ e ∙ sym f
      | inr (y, f) ↦ absurd (cc (rw (e, f, equal_at) at h))
    ]
    | inr (x, e) ↦ elim (Option-cases (get_elem? current j)) [
      | inl f ↦ absurd (cc (rw (e, f, equal_at) at h))
      | inr (y, f) ↦
          let same : x ≡ y = (list_beq_iff x y).0 (rw (e, f, equal_at) at h) in
          e ∙ ap some same ∙ sym f
    ]
  ]

  pub common_prefix-Aligned :
      (c_end left h c : ℕ)
      → c ≤ c_end
      → (common_prefix head current c_end left h c ≤ left)
        × (c + common_prefix head current c_end left h c ≤ c_end)
        × Aligned head current h c
            (h + common_prefix head current c_end left h c)
            (c + common_prefix head current c_end left h c)
            (run_pairs h c (common_prefix head current c_end left h c))
  unfolding common_prefix run_pairs
  common_prefix-Aligned c_end zero h c l = (omega arith, omega arith, tt)
  common_prefix-Aligned c_end (suc left) h c l =
      elim (Bool-cases (ltb c c_end && equal_at head current h c)) [
        | inr stop ↦ rw (stop, common_prefix) (omega arith, omega arith, tt)
        | inl going ↦
            let n = common_prefix head current c_end left (h + 1) (c + 1) in
            let same : equal_at head current h c ≡ true = ground arith in
            let (a, b, rest) = common_prefix-Aligned c_end left (h + 1) (c + 1) (ground arith) in
            let e : h + suc n ≡ h + 1 + n = omega arith in
            let f : c + suc n ≡ c + 1 + n = omega arith in
            rw (going, common_prefix)
              (
                omega arith,
                omega arith,
                rw (e, f)
                    (
                      omega arith,
                      omega arith,
                      omega arith,
                      omega arith,
                      equal_at-eq h c same,
                      rest,
                    ),
              )
      ]

  pub common_prefix-equal :
      (c_end left h c k : ℕ)
      → k < common_prefix head current c_end left h c
      → get_elem? head (h + k) ≡ get_elem? current (c + k)
  unfolding common_prefix
  common_prefix-equal c_end zero h c k l = absurd (omega arith)
  common_prefix-equal c_end (suc left) h c zero l =
      elim (Bool-cases (ltb c c_end && equal_at head current h c)) [
        | inr stop ↦ absurd (omega (arith, rw (stop, common_prefix) at l))
        | inl going ↦
            let same : equal_at head current h c ≡ true = ground arith in
            rw (add-zero h, add-zero c) (equal_at-eq h c same)
      ]
  common_prefix-equal c_end (suc left) h c (suc k) l =
      elim (Bool-cases (ltb c c_end && equal_at head current h c)) [
        | inr stop ↦ absurd (omega (arith, rw (stop, common_prefix) at l))
        | inl going ↦
            let e : h + suc k ≡ h + 1 + k = omega arith in
            let f : c + suc k ≡ c + 1 + k = omega arith in
            let below : suc k < suc (common_prefix head current c_end left (h + 1) (c + 1)) =
              rw (going, common_prefix) at l in
            rw (e, f) (common_prefix-equal c_end left (h + 1) (c + 1) k (omega arith))
      ]

  run_pairs-Aligned :
      (h c n : ℕ)
      → ((k : ℕ) → k < n → get_elem? head (h + k) ≡ get_elem? current (c + k))
      → Aligned head current h c (h + n) (c + n) (run_pairs h c n)
  unfolding run_pairs
  run_pairs-Aligned h c zero same = tt
  run_pairs-Aligned h c (suc n) same =
      let e : h + suc n ≡ h + 1 + n = omega arith in
      let f : c + suc n ≡ c + 1 + n = omega arith in
      rw (e, f)
        (
          omega arith,
          omega arith,
          omega arith,
          omega arith,
          rw (add-zero h, add-zero c) at (same 0 (omega arith)),
          run_pairs-Aligned (h + 1) (c + 1) n (λ k l.
              let e' : h + 1 + k ≡ h + suc k = omega arith in
              let f' : c + 1 + k ≡ c + suc k = omega arith in
              rw (e', f') (same (suc k) (omega arith))),
        )

  pub common_suffix-equal :
      (h c h_end c_end : ℕ)
      → h ≤ h_end
      → c ≤ c_end
      → (h + common_suffix head current h c h_end c_end ≤ h_end)
        × (c + common_suffix head current h c h_end c_end ≤ c_end)
        × ((k : ℕ)
            → k < common_suffix head current h c h_end c_end
            → get_elem? head (h_end - common_suffix head current h c h_end c_end + k)
              ≡ get_elem? current (c_end - common_suffix head current h c h_end c_end + k))
  unfolding common_suffix
  common_suffix-equal h c zero c_end l r = (omega arith, omega arith, λ k s. absurd (omega arith))
  common_suffix-equal h c (suc h_end) zero l r =
      (omega arith, omega arith, λ k s. absurd (omega arith))
  common_suffix-equal h c (suc h_end) (suc c_end) l r =
      elim (Bool-cases (leb h h_end && (leb c c_end && equal_at head current h_end c_end))) [
        | inr stop ↦
            rw (stop, common_suffix) (omega arith, omega arith, λ k s. absurd (omega arith))
        | inl going ↦
            let n = common_suffix head current h c h_end c_end in
            let same : equal_at head current h_end c_end ≡ true = ground arith in
            let (a, b, rest) = common_suffix-equal h c h_end c_end (ground arith) (ground arith) in
            rw (going, common_suffix)
              (
                omega arith,
                omega arith,
                λ k s. elim (Bool-cases (ltb k n)) [
                  | inl before ↦
                      let e : suc h_end - suc n + k ≡ h_end - n + k = omega arith in
                      let f : suc c_end - suc n + k ≡ c_end - n + k = omega arith in
                      rw (e, f) (rest k (ground arith))
                  | inr last ↦
                      let is : k ≡ n = ground arith in
                      let e : suc h_end - suc n + k ≡ h_end = omega arith in
                      let f : suc c_end - suc n + k ≡ c_end = omega arith in
                      rw (e, f) (equal_at-eq h_end c_end same)
                ],
              )
      ]

  pub common_suffix-Aligned :
      (h c h_end c_end : ℕ)
      → h ≤ h_end
      → c ≤ c_end
      → Aligned head current
          (h_end - common_suffix head current h c h_end c_end)
          (c_end - common_suffix head current h c h_end c_end)
          h_end
          c_end
          (run_pairs
            (h_end - common_suffix head current h c h_end c_end)
            (c_end - common_suffix head current h c h_end c_end)
            (common_suffix head current h c h_end c_end))
  common_suffix-Aligned h c h_end c_end l r =
      let n = common_suffix head current h c h_end c_end in
      let (a, b, same) = common_suffix-equal h c h_end c_end l r in
      let e : h_end - n + n ≡ h_end = omega arith in
      let f : c_end - n + n ≡ c_end = omega arith in
      rw (e, f) at (run_pairs-Aligned (h_end - n) (c_end - n) n same)
