-- ===== src/Git/Diff.antt =====
-- `diffBlocks` of block-diff.ts: the blocks that were changed, added or deleted since the commit.
-- What the code pushes on its two lists is here given back, in the same order.
pub mod Undo
pub mod Same
use noto.Common.{
  ℕ, zero, suc, ◌+◌, ◌-◌, min, ◌&&◌, Option, none, List, [], ◌∷◌, ◌++◌, map, ltb, leb,
  if◌then◌else◌, ◌==◌, nat_eq, list_eq, length, get_elem?, slice, Text,
}
use noto.Git.Align.{alignment}
use noto.Git.Similar.{Doubles, similar_pairs}

pub data GitBlockChange : Type 0 where
  modified added : GitBlockChange

pub record GitChangedBlock : Type 0 where
  pub ordinal : ℕ
  pub change : GitBlockChange
  pub head : Option Text

pub record GitDeletedBlocks : Type 0 where
  pub before : ℕ
  pub head : Text
  pub heads : List Text

pub record GitBlockDiff : Type 0 where
  pub changed : List GitChangedBlock
  pub deleted : List GitDeletedBlocks

abbrev pub max_similarity_run : ℕ
max_similarity_run = 64

abbrev pub both : GitBlockDiff → GitBlockDiff → GitBlockDiff
both a b = record { changed = a.changed ++ b.changed; deleted = a.deleted ++ b.deleted }

abbrev pub modified_block : ℕ → Option Text → GitChangedBlock
modified_block at block = record { ordinal = at; change = modified; head = block }

abbrev pub added_block : ℕ → GitChangedBlock
added_block at = record { ordinal = at; change = added; head = none }

-- `block.replace(/\n+$/, '')`; `newlines` are those that were read and may be the last
pub trim_newlines : Text → Text → Text
trim_newlines newlines [] = []
trim_newlines newlines (c ∷ t) =
    let more = trim_newlines (newlines ++ c ∷ []) t in
    let rest = trim_newlines [] t in if c == 10 then more else newlines ++ c ∷ rest

-- `blocks.join('\n\n')`
pub join_blocks : List Text → Text
join_blocks [] = []
join_blocks (x ∷ []) = x
join_blocks (x ∷ y ∷ xs) = x ++ 10 ∷ 10 ∷ join_blocks (y ∷ xs)

module _ (head : List Text) where
  -- The two loops of `positional`, with how often they run.
  pub modified_run : ℕ → ℕ → ℕ → List GitChangedBlock
  modified_run zero h c = []
  modified_run (suc n) h c = modified_block c (get_elem? head h) ∷ modified_run n (h + 1) (c + 1)

  pub added_run : ℕ → ℕ → List GitChangedBlock
  added_run zero c = []
  added_run (suc n) c = added_block c ∷ added_run n (c + 1)

  -- What is left over of the head, marked before the next current block.
  pub deleted_run : ℕ → ℕ → ℕ → List GitDeletedBlocks
  unfolding trim_newlines join_blocks
  deleted_run from to before =
      let heads = slice from to head in
      if ltb from to
      then (record {
        before = before;
        head = join_blocks (map (trim_newlines []) heads);
        heads = heads;
      })
        ∷ []
      else []

  pub positional : ℕ → ℕ → ℕ → ℕ → GitBlockDiff
  unfolding modified_run added_run deleted_run
  positional head_from head_to current_from current_to =
      let head_run = head_to - head_from in
      let current_run = current_to - current_from in
      let paired = min head_run current_run in
      record {
        changed =
            modified_run paired head_from current_from
            ++ added_run (current_run - paired) (current_from + paired);
        deleted = deleted_run (head_from + paired) head_to current_to;
      }

  -- The loop of `settle` over the similar pairs, which count from `head_at` and `current_at`, and the
  -- stretch after the last of them.
  pub settle_pairs : ℕ → ℕ → ℕ → ℕ → ℕ → ℕ → List (ℕ × ℕ) → GitBlockDiff
  unfolding positional
  settle_pairs head_at current_at head_to current_to head_from current_from [] =
      positional head_from head_to current_from current_to
  settle_pairs head_at current_at head_to current_to head_from current_from ((i, j) ∷ pairs) =
      both (positional head_from (head_at + i) current_from (current_at + j)) (
        both
          (record {
            changed = modified_block (current_at + j) (get_elem? head (head_at + i)) ∷ [];
            deleted = [];
          })
          (settle_pairs head_at current_at head_to current_to (head_at + i + 1) (current_at + j + 1)
            pairs))

  module _ (d : Doubles) (words : Text → List Text) (current : List Text) where
    pub settle : ℕ → ℕ → ℕ → ℕ → GitBlockDiff
    unfolding settle_pairs positional
    settle head_at current_at head_to current_to =
        let head_run = head_to - head_at in
        let current_run = current_to - current_at in
        if ltb 0 head_run
          && (ltb 0 current_run
              && (ltb 2 (head_run + current_run)
                  && (leb head_run max_similarity_run && leb current_run max_similarity_run)))
        then settle_pairs head_at current_at head_to current_to head_at current_at (
            similar_pairs d words (slice head_at head_to head)
              (slice current_at current_to current))
        else positional head_at head_to current_at current_to

    -- The loop over the pairs, and the stretch after the last of them.
    pub diff_from : ℕ → ℕ → List (ℕ × ℕ) → GitBlockDiff
    unfolding settle
    diff_from head_at current_at [] = settle head_at current_at (length head) (length current)
    diff_from head_at current_at ((i, j) ∷ pairs) =
        both (settle head_at current_at i j) (diff_from (i + 1) (j + 1) pairs)

-- `maxCells` has the default `max_alignment_cells`.
unfoldable pub diff_blocks : Doubles → (Text → List Text) → List Text → List Text → ℕ → GitBlockDiff
unfolding diff_from
diff_blocks d words head current max_cells =
    diff_from head d words current 0 0 (alignment head current max_cells)
