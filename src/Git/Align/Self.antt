-- ===== src/Git/Align/Self.antt =====
-- A note aligned with itself.
use noto.Common.{
  ℕ, zero, suc, ◌+◌, ◌-◌, ◌≤◌, ◌≡◌, refl, ap, ◌∙◌, inl, inr, true, false, ◌&&◌, Option, some, List,
  [], append-nil, arith, ltb, leb, Option-cases, nat_eq, list_eq, ==_refl, length, get_elem?, Text,
}
use noto.Git.Align.{
  equal_at, common_prefix, common_suffix, run_pairs, align_middle, align_ends, align_range,
  alignment,
}

module _ (note : List Text) where
  equal_at_self : (i : ℕ) → equal_at note note i i ≡ true
  unfolding equal_at
  equal_at_self i = elim (Option-cases (get_elem? note i)) [
    | inl e ↦ rw (e, equal_at, e)
    | inr (x, e) ↦ rw (e, equal_at, e) (==_refl x)
  ]

  common_prefix_self :
      (left h : ℕ) → h + left ≡ length note → common_prefix note note (length note) left h h ≡ left
  unfolding common_prefix
  common_prefix_self zero h e = refl
  common_prefix_self (suc left) h e =
      let going : (ltb h (length note) && equal_at note note h h) ≡ true =
        ground (arith, equal_at_self h) in
      rw (going, common_prefix) (ap suc (common_prefix_self left (h + 1) (omega arith)))

  common_suffix_none :
      (h c h_end c_end : ℕ) → h_end ≤ h → common_suffix note note h c h_end c_end ≡ 0
  unfolding common_suffix
  common_suffix_none h c zero c_end l = refl
  common_suffix_none h c (suc h_end) zero l = refl
  common_suffix_none h c (suc h_end) (suc c_end) l =
      let stop : leb h h_end ≡ false = ground arith in rw (stop, common_suffix)

  align_middle_none :
      (max_cells : ℕ) (next : Option (ℕ → ℕ → ℕ → ℕ → List (ℕ × ℕ))) (h h_end c c_end : ℕ)
      → h_end ≤ h
      → align_middle note note max_cells next h h_end c c_end ≡ []
  unfolding align_middle
  align_middle_none max_cells next h h_end c c_end l =
      let stop : ltb h h_end ≡ false = ground arith in rw (stop, align_middle)

  align_ends_self :
      (max_cells : ℕ) (next : Option (ℕ → ℕ → ℕ → ℕ → List (ℕ × ℕ)))
      → align_ends note note max_cells next 0 (length note) 0 (length note)
        ≡ run_pairs 0 0 (length note)
  unfolding align_ends run_pairs
  align_ends_self max_cells next =
      let n = length note in
      let prefix : common_prefix note note n (n - 0) 0 0 ≡ n =
        common_prefix_self (n - 0) 0 (omega arith) ∙ omega arith in
      let suffix : common_suffix note note (0 + n) (0 + n) n n ≡ 0 =
        common_suffix_none (0 + n) (0 + n) n n (omega arith) in
      let middle = align_middle_none max_cells next (0 + n) (n - 0) (0 + n) (n - 0) (omega arith) in
      rw (prefix, suffix, middle) (append-nil (run_pairs 0 0 n))

  pub alignment_self : (max_cells : ℕ) → alignment note note max_cells ≡ run_pairs 0 0 (length note)
  unfolding alignment align_range
  alignment_self max_cells = align_ends_self max_cells (some (align_range note note max_cells 31))
