-- ===== src/Serialize/Region/Reading.antt =====
-- What is read of each unit that changed: the last two loops of `serializeContiguousRegion`.
use noto.Common.{
  ℕ, zero, suc, ◌+◌, Bool, false, not, ◌||◌, Option, none, some, List, [], ◌∷◌, if◌then◌else◌,
  is_some, nat_eq, bool_eq, list_eq, length, get_elem?, Text,
}
use noto.Contracts.{Document, EditUnit}
use noto.Windows.{Window, ReparsedBlock}
use noto.Serialize.{BlockEngine}
use noto.Serialize.Units.{pristine_unit}
use noto.Serialize.Next.{reparsed_at}

module _ (e : BlockEngine) (d : Document) (units : List EditUnit) (effective : List Text) where
  -- A unit that has to be read on its own: it changed, and was not read yet.
  unfoldable pub must_read : ℕ → List (ℕ × ReparsedBlock) → Bool
  must_read index known = elim (get_elem? units index) [
    | none ↦ false
    | some u ↦ not (pristine_unit d u || is_some (reparsed_at index known))
  ]

  unfoldable pub read_unit : ℕ → Option ReparsedBlock
  read_unit index = elim (get_elem? effective index) [
    | none ↦ none
    | some markdown ↦ elim (e.parse_single_block markdown) [
      | none ↦ none
      | some single ↦
          some
            (record { kind = single.kind; semantic_key = single.semantic_key; markdown = markdown })
    ]
  ]

  -- The loop over the blocks of a window.
  unfoldable pub read_window : ℕ → ℕ → List (ℕ × ReparsedBlock) → List (ℕ × ReparsedBlock)
  read_window index zero known = known
  read_window index (suc count) known =
      if must_read index known
      then elim (read_unit index) [
        | none ↦ read_window (index + 1) count known
        | some block ↦ read_window (index + 1) count ((index, block) ∷ known)
      ]
      else read_window (index + 1) count known

  unfoldable pub read_windows :
      List (Window × List ReparsedBlock) → List (ℕ × ReparsedBlock) → List (ℕ × ReparsedBlock)
  read_windows [] known = known
  read_windows ((window, blocks) ∷ windows) known =
      read_windows windows (read_window window.from (length blocks) known)

  -- The loop over the middle, of `count` units from an index on.
  unfoldable pub read_middle : ℕ → ℕ → List (ℕ × ReparsedBlock) → Option (List (ℕ × ReparsedBlock))
  read_middle index zero known = some known
  read_middle index (suc count) known =
      if must_read index known
      then elim (read_unit index) [
        | none ↦ none
        | some block ↦ read_middle (index + 1) count ((index, block) ∷ known)
      ]
      else read_middle (index + 1) count known
