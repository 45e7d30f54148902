-- ===== src/Tests/Git.antt =====
-- Two small notes, compared.
use noto.Common.{
  ℕ, ◌+◌, ◌*◌, ◌/◌, ◌≤◌, max, ◌≡◌, refl, ◌↔◌, inl, inr, List, [], ◌∷◌, map, arith, ltb, leb,
  nat_beq, nat_eq, list_eq, length, Text, codes,
}
use noto.Git.Pairs.{Aligned}
use noto.Git.Align.{alignment}
use noto.Git.Align.Sound.{alignment-Aligned}
use noto.Git.Align.Longest.{alignment-IsLongest}
use noto.Git.Anchors.{unique_anchors}
use noto.Git.Anchors.Chain.{unique_anchors-Aligned}
use noto.Git.Table.{table_align}
use noto.Git.Table.Longest.{table_align-IsLongest}
use noto.Git.Similar.{Doubles}
use noto.Git.Diff.{diff_blocks}
use noto.Git.Diff.Undo.Whole.{undo_diff, undo-diff_blocks}
use noto.Git.Diff.Same.{no_diff, diff_blocks_none_iff}

abbrev committed : List Text
committed = codes "a" ∷ codes "b" ∷ codes "c" ∷ codes "d" ∷ codes "e" ∷ codes "z" ∷ []

abbrev edited : List Text
edited = codes "a" ∷ codes "d" ∷ codes "c" ∷ codes "e" ∷ codes "y" ∷ codes "z" ∷ []

abbrev common_part : List Text
common_part = codes "a" ∷ codes "c" ∷ codes "e" ∷ []

-- thousandths, rounded down
abbrev thousandths : Doubles
thousandths = record {
  carrier = ℕ;
  nought = 0;
  one = 1000;
  similar = 300;
  ratio = λ a b. 1000 * a / b;
  plus = λ a b. a + b;
  larger = λ a b. max a b;
  at_least = λ a b. leb b a;
  equals = λ a b. nat_beq a b;
  positive = λ a. ltb 0 a;
}

-- the characters of a block
abbrev letters : Text → List Text
letters t = map (λ c. c ∷ []) t

alignment-Aligned_example : Aligned committed edited 0 0 6 6 (alignment committed edited 5)
alignment-Aligned_example = alignment-Aligned committed edited 5

alignment-IsLongest_example : 3 ≤ length (alignment committed edited 100)
alignment-IsLongest_example =
    alignment-IsLongest committed edited common_part 100 (omega arith) (omega arith)
      (inr (_, refl, inl (inr (_, refl, inl (inr (_, refl, inl refl))))))
      (inr (_, refl, inl (inr (_, refl, inr (_, refl, inl (inl refl))))))

table_align-IsLongest_example : 3 ≤ length (table_align 0 0 committed edited)
table_align-IsLongest_example =
    table_align-IsLongest 0 0 committed edited common_part (omega arith)
      (inr (_, refl, inl (inr (_, refl, inl (inr (_, refl, inl refl))))))
      (inr (_, refl, inl (inr (_, refl, inr (_, refl, inl (inl refl))))))

unique_anchors-Aligned_example :
    Aligned committed edited 0 0 6 6 (unique_anchors 0 0 committed edited)
unique_anchors-Aligned_example =
    unique_anchors-Aligned committed edited 0 0 6 6 committed edited
      (refl, (refl, (refl, (refl, (refl, (refl, refl))))))
      (refl, (refl, (refl, (refl, (refl, (refl, refl))))))

undo-diff_blocks_example :
    undo_diff edited (diff_blocks thousandths letters committed edited 100) ≡ committed
undo-diff_blocks_example = undo-diff_blocks thousandths letters committed edited 100

diff_blocks_none_iff_example :
    (diff_blocks thousandths letters committed committed 100 ≡ no_diff) ↔ (committed ≡ committed)
diff_blocks_none_iff_example = diff_blocks_none_iff thousandths letters committed committed 100

table_align_runs :
    table_align 4 2
      (codes "a" ∷ codes "b" ∷ codes "c" ∷ [])
      (codes "b" ∷ codes "d" ∷ codes "c" ∷ [])
    ≡ (5, 2) ∷ (6, 4) ∷ []
unfolding table_align
table_align_runs = refl

unique_anchors_runs :
    unique_anchors 3 7
      (codes "a" ∷ codes "b" ∷ codes "c" ∷ codes "d" ∷ codes "a" ∷ [])
      (codes "b" ∷ codes "d" ∷ codes "c" ∷ codes "x" ∷ [])
    ≡ (4, 7) ∷ (6, 8) ∷ []
unfolding unique_anchors
unique_anchors_runs = refl

alignment_runs :
    alignment
      (codes "a" ∷ codes "b" ∷ codes "c" ∷ codes "d" ∷ codes "e" ∷ codes "z" ∷ [])
      (codes "a" ∷ codes "d" ∷ codes "c" ∷ codes "e" ∷ codes "y" ∷ codes "z" ∷ [])
      5
    ≡ (0, 0) ∷ (3, 1) ∷ (4, 3) ∷ (5, 5) ∷ []
unfolding alignment unique_anchors table_align
alignment_runs = refl
