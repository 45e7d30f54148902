-- ===== src/Revision/Build.antt =====
-- `pairBlocks`, `commonEnds` and `revisionPatch` of revision-patch.ts: the patch from one revision of
-- a document to the next.
pub mod Ends
use noto.Common.{
  ℕ, zero, suc, ◌+◌, ◌-◌, min, Bool, false, ◌&&◌, ◌||◌, Option, none, some, List, [], ◌∷◌, ◌++◌,
  ltb, leb, if◌then◌else◌, ◌==◌, nat_eq, list_eq, length, get_elem?, slice, Text,
}
use noto.Contracts.{
  Block, block_kind_eq, Document, TextSplice, KeptBlocks, PatchEntry, moved, patched, RevisionPatch,
  markdown_version,
}
use noto.Revision.BlockId.{block_id_at}

-- `after.id === blockIdAt(before.id, j)`
abbrev pub is_id : Text → Option Text → Bool
is_id id none = false
is_id id (some other) = id == other

pub same_block : Document → Document → Block → Block → ℕ → Bool
unfolding block_id_at
same_block base next before after j =
    before.sha256 == after.sha256
    && (before.kind == after.kind
        && (before.semantic_key == after.semantic_key
            && (before.end + after.start == after.end + before.start
                && (is_id after.id (block_id_at before.id j)
                    && slice before.start before.end base.text
                      == slice after.start after.end next.text))))

pub unchanged : Document → Document → ℕ → ℕ → Bool
unfolding same_block
unchanged base next i j = elim (get_elem? base.blocks i) [
  | none ↦ false
  | some before ↦ (elim (get_elem? next.blocks j) [
    | none ↦ false
    | some after ↦ same_block base next before after j
  ])
]

-- The first block of the base from `i` on with the hash of block `j`, and unchanged; `index` is that
-- of the first block at hand.
pub find_unchanged : Document → Document → ℕ → ℕ → Text → ℕ → List Block → Option ℕ
unfolding unchanged
find_unchanged base next i j sha256 index [] = none
find_unchanged base next i j sha256 index (block ∷ blocks) =
    let rest = find_unchanged base next i j sha256 (index + 1) blocks in
    if block.sha256 == sha256 && (leb i index && unchanged base next index j)
    then some index
    else rest

-- Which base block the block `j` is, and the base block from which the next one is looked for.
pub pair_block : Document → Document → ℕ → ℕ → Block → Option ℕ × ℕ
unfolding find_unchanged
pair_block base next i j block =
    if leb (length base.blocks) i
    then (none, i)
    else if unchanged base next i j
    then (some i, i + 1)
    else if unchanged base next (i + 1) (j + 1) || unchanged base next i (j + 1)
    then (none, if unchanged base next (i + 1) (j + 1) then i + 1 else i)
    else if unchanged base next (i + 1) j
    then (some (i + 1), i + 2)
    else (elim (find_unchanged base next i j block.sha256 0 base.blocks) [
      | none ↦ (none, i)
      | some found ↦ (some found, found + 1)
    ])

pub pair_from : Document → Document → ℕ → ℕ → List Block → List (Option ℕ)
unfolding pair_block
pair_from base next i j [] = []
pair_from base next i j (block ∷ blocks) =
    let (found, i') = pair_block base next i j block in
    found ∷ pair_from base next i' (j + 1) blocks

unfoldable pub pair_blocks : Document → Document → List (Option ℕ)
unfolding pair_from
pair_blocks base next = pair_from base next 0 0 next.blocks

abbrev pub is_high : ℕ → Bool
is_high c = leb 0xd800 c && leb c 0xdbff

abbrev pub is_low : ℕ → Bool
is_low c = leb 0xdc00 c && leb c 0xdfff

abbrev pub at_unit : (ℕ → Bool) → Option ℕ → Bool
at_unit p none = false
at_unit p (some c) = p c

-- The first loop of `commonEnds`.
pub common_head : Text → Text → ℕ
common_head [] right = 0
common_head (x ∷ left) [] = 0
common_head (x ∷ left) (y ∷ right) =
    let rest = common_head left right in if x == y then suc rest else 0

-- `===` on two code units
abbrev pub same_unit : Option ℕ → Option ℕ → Bool
same_unit (some x) (some y) = x == y
same_unit _ _ = false

-- The second loop: `room` is how much further it may go.
pub common_tail : Text → Text → ℕ → ℕ → ℕ
common_tail left right zero tail = tail
common_tail left right (suc room) tail =
    let more = common_tail left right room (tail + 1) in
    if same_unit (get_elem? left (length left - 1 - tail))
      (get_elem? right (length right - 1 - tail))
    then more
    else tail

pub ends_head : Text → Text → ℕ
unfolding common_head
ends_head left right =
    let head = common_head left right in
    if ltb 0 head
      && (ltb head (min (length left) (length right))
          && at_unit is_high (get_elem? left (head - 1)))
    then head - 1
    else head

pub ends_tail : Text → Text → ℕ → ℕ
unfolding common_tail
ends_tail left right head =
    let tail = common_tail left right (min (length left) (length right) - head) 0 in
    if ltb 0 tail && at_unit is_low (get_elem? left (length left - tail)) then tail - 1 else tail

unfoldable pub common_ends : Text → Text → ℕ × ℕ
unfolding ends_head ends_tail
common_ends left right = let head = ends_head left right in (head, ends_tail left right head)

pub record Building : Type 0 where
  pub splices : List TextSplice
  pub base_cursor : ℕ
  pub next_cursor : ℕ
  pub blocks : List PatchEntry
  pub run : Option KeptBlocks

abbrev pub run_entry : Option KeptBlocks → List PatchEntry
run_entry none = []
run_entry (some r) = moved r ∷ []

-- `between`: the splice for the text up to the two ends, if it differs
pub between : Document → Document → Building → ℕ → ℕ → List TextSplice
unfolding common_ends
between base next s base_end next_end =
    let before = slice s.base_cursor base_end base.text in
    let after = slice s.next_cursor next_end next.text in
    let (head, tail) = common_ends before after in
    if before == after
    then s.splices
    else s.splices
      ++ (record {
        start = s.base_cursor + head;
        end = base_end - tail;
        text = slice head (length after - tail) after;
      })
        ∷ []

-- The run that is open, with one block more, or closed and a new one opened.
pub extend_kept : Building → ℕ → Text → List PatchEntry × KeptBlocks
extend_kept s i id = elim s.run [
  | none ↦ (s.blocks, record { keep = i; count = 1; first_block_id = id })
  | some r ↦
      if r.keep + r.count == i
      then (s.blocks, record r { count = r.count + 1 })
      else (s.blocks ++ moved r ∷ [], record { keep = i; count = 1; first_block_id = id })
]

pub build_block : Document → Document → Building → Block → Option ℕ → Building
unfolding between extend_kept
build_block base next s block found = elim found [
  | none ↦ record s {
    blocks =
        s.blocks
        ++ (run_entry s.run
            ++ patched (record { origin = block.origin; start = block.start; end = block.end })
              ∷ []);
    run = none;
  }
  | some i ↦ (elim (get_elem? base.blocks i) [
    | none ↦ s
    | some base_block ↦
        let (closed, r) = extend_kept s i base_block.id in
        record {
          splices = between base next s base_block.start block.start;
          base_cursor = base_block.end;
          next_cursor = block.end;
          blocks = closed;
          run = some r;
        }
  ])
]

pub build_blocks : Document → Document → Building → List Block → List (Option ℕ) → Building
unfolding build_block
build_blocks base next s (block ∷ blocks) (found ∷ paired) =
    build_blocks base next (build_block base next s block found) blocks paired
build_blocks base next s _ _ = s

unfoldable pub revision_patch : Document → Document → RevisionPatch
unfolding build_blocks between pair_blocks
revision_patch base next =
    let s =
      build_blocks base next
        (record { splices = []; base_cursor = 0; next_cursor = 0; blocks = []; run = none })
        next.blocks (pair_blocks base next) in
    record {
      version = markdown_version;
      base_revision_id = base.revision_id;
      revision_id = next.revision_id;
      envelope = next.envelope;
      splices = between base next s (length base.text) (length next.text);
      blocks = s.blocks ++ run_entry s.run;
    }
