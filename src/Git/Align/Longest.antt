-- ===== src/Git/Align/Longest.antt =====
-- How many blocks the alignment of block-diff.ts keeps where the table fits.
use noto.Common.{
  ℕ, zero, suc, ◌+◌, ◌-◌, ◌*◌, ◌^◌, ◌≤◌, ◌<◌, ◌≡◌, refl, sym, ap, inl, inr, true, ◌&&◌, Option,
  some, List, ◌++◌, arith, ltb, leb, Bool-cases, nat_eq, list_eq, length, take, drop, slice,
  length-append, length-take, length-drop, Text, take_ext, drop_ext, three_parts,
}
use native.Mathlib.Nat.{mul-le-mul, zero-add}
use noto.Git.Table.Lcs.{
  lcs-le_right, lcs-append_left, lcs-append_right, lcs, IsSubsequence, lcs_bound, lcs-le,
}
use noto.Git.Table.Longest.{length-table_align}
use noto.Git.Align.{
  common_prefix, common_suffix, run_pairs, align_middle, align_ends, align_range, alignment,
}
use noto.Git.Align.Ends.{common_prefix-equal, common_prefix-Aligned, common_suffix-equal}

leb_of_le : (a b : ℕ) → a ≤ b → leb a b ≡ true
leb_of_le a b h = ground arith

module _ (head current : List Text) where
  -- What is common to two notes, by the middle that is left between their ends.
  lcs-middle :
      (h_end c_end h c : ℕ)
      → h ≤ h_end
      → c ≤ c_end
      → h_end ≤ length head
      → c_end ≤ length current
      → take h head ≡ take c current
      → drop h_end head ≡ drop c_end current
      → lcs head current
        ≤ h + lcs (slice h h_end head) (slice c c_end current) + (length head - h_end)
  lcs-middle h_end c_end h c l r l' r' first last =
      let ps = take h head in
      let ss = drop h_end head in
      let xs = slice h h_end head in
      let ys = slice c c_end current in
      let is_head = three_parts h h_end head l in
      let is_current : ps ++ (ys ++ ss) ≡ current =
        rw (first, last) (three_parts c c_end current r) in
      let all_three : lcs (ps ++ (xs ++ ss)) (ps ++ (ys ++ ss))
          ≤ length ps + (lcs xs ys + length ss) =
        omega (arith, lcs-append_left ps (xs ++ ss) (ys ++ ss), lcs-append_right ss xs ys) in
      let whole : lcs head current ≤ length ps + (lcs xs ys + length ss) =
        rw (is_head, is_current) at all_three in
      omega (arith, whole, length-take h head, length-drop h_end head)

  length-align_middle :
      (max_cells : ℕ) (next : Option (ℕ → ℕ → ℕ → ℕ → List (ℕ × ℕ))) (h h_end c c_end : ℕ)
      → length head * length current ≤ max_cells
      → length head < 2 ^ 32
      → h_end ≤ length head
      → c_end ≤ length current
      → length (align_middle head current max_cells next h h_end c c_end)
        ≡ lcs (slice h h_end head) (slice c c_end current)
  unfolding align_middle
  length-align_middle max_cells next h h_end c c_end room small l r =
      elim (Bool-cases (ltb h h_end && ltb c c_end)) [
        | inr empty ↦
            let none_left : lcs (slice h h_end head) (slice c c_end current) ≡ 0 = ground (
              arith,
              lcs-le (slice h h_end head) (slice c c_end current),
              lcs-le_right (slice h h_end head) (slice c c_end current),
              length-take (h_end - h) (drop h head),
              length-take (c_end - c) (drop c current),
            ) in
            rw (empty, align_middle) (sym none_left)
        | inl e ↦
            let cells : (h_end - h) * (c_end - c) ≤ length head * length current =
              mul-le-mul (omega arith) (omega arith) in
            let fits : leb ((h_end - h) * (c_end - c)) max_cells ≡ true =
              leb_of_le ((h_end - h) * (c_end - c)) max_cells (omega arith) in
            rw (e, fits, align_middle)
              (length-table_align h c (slice h h_end head) (slice c c_end current)
                (omega (arith, length-take (h_end - h) (drop h head), length-drop h head)))
      ]

  length-run_pairs : (h c n : ℕ) → length (run_pairs h c n) ≡ n
  unfolding run_pairs
  length-run_pairs h c zero = refl
  length-run_pairs h c (suc n) = ap suc (length-run_pairs (h + 1) (c + 1) n)

  align_ends-IsLongest :
      (max_cells : ℕ) (next : Option (ℕ → ℕ → ℕ → ℕ → List (ℕ × ℕ)))
      → length head * length current ≤ max_cells
      → length head < 2 ^ 32
      → lcs head current
        ≤ length (align_ends head current max_cells next 0 (length head) 0 (length current))
  unfolding align_ends
  align_ends-IsLongest max_cells next room small =
      let n = common_prefix head current (length current) (length head - 0) 0 0 in
      let m = common_suffix head current (0 + n) (0 + n) (length head) (length current) in
      let (a, b, _) =
        common_prefix-Aligned head current (length current) (length head - 0) 0 0 (omega arith) in
      let (p, q, same) =
        common_suffix-equal head current (0 + n) (0 + n) (length head) (length current)
          (omega arith) b in
      let first : take (0 + n) head ≡ take (0 + n) current = take_ext (0 + n) head current (λ k l.
        rw (zero-add k) at (
          common_prefix-equal head current (length current) (length head - 0) 0 0 k
            (omega arith))) in
      let last : drop (length head - m) head ≡ drop (length current - m) current =
        drop_ext m (length head - m) (length current - m) head current (omega arith) (omega arith)
          same in
      let bound =
        lcs-middle (length head - m) (length current - m) (0 + n) (0 + n) (omega arith)
          (omega arith) (omega arith) (omega arith) first last in
      let middle =
        align_middle head current max_cells next (0 + n) (length head - m) (0 + n)
          (length current - m) in
      omega (
        arith,
        bound,
        length-append (run_pairs 0 0 n)
            (middle ++ run_pairs (length head - m) (length current - m) m),
        length-append middle (run_pairs (length head - m) (length current - m) m),
        length-run_pairs 0 0 n,
        length-run_pairs (length head - m) (length current - m) m,
        length-align_middle max_cells next (0 + n) (length head - m) (0 + n) (length current - m)
            room small (omega arith) (omega arith),
      )

-- Where a table over both notes fits, the alignment keeps as many blocks as any common subsequence
-- of the two has: taking off the common beginning and end first loses none. The head has fewer than
-- 2^32 blocks.
pub alignment-IsLongest :
    (head current common : List Text) (max_cells : ℕ)
    → length head * length current ≤ max_cells
    → length head < 2 ^ 32
    → IsSubsequence common head
    → IsSubsequence common current
    → length common ≤ length (alignment head current max_cells)
unfolding alignment align_range
alignment-IsLongest head current common max_cells room small a b = omega (
  arith,
  lcs_bound head current common a b,
  align_ends-IsLongest head current max_cells (some (align_range head current max_cells 31)) room
      small,
)
