-- ===== src/Serialize/Windows.antt =====
-- The check of the windows around the changed units, as each save runs it.
use noto.Common.{
  ℕ, ◌+◌, Option, none, some, List, [], ◌∷◌, if◌then◌else◌, ◌==◌, nat_eq, bool_eq, list_eq, length,
  get_elem?, slice, Text,
}
use noto.Contracts.{Document, EditUnit, Span}
use noto.Windows.{Window, ReparsedBlock, passed, failed_at, threw, check_window}
use noto.Serialize.{BlockEngine}
use noto.Serialize.Units.{unit_markdown}

-- `units.map(unit => unitMarkdown(unit, document))`, if none of them is null
unfoldable pub effective_texts : Document → List EditUnit → Option (List Text)
effective_texts d [] = some []
effective_texts d (u ∷ units) = elim (unit_markdown d u) [
  | none ↦ none
  | some text ↦ (elim (effective_texts d units) [ none ↦ none | some texts ↦ some (text ∷ texts) ])
]

abbrev pub start_of : Option Span → ℕ
start_of none = 0
start_of (some span) = span.start

abbrev pub end_of : Option Span → ℕ
end_of none = 0
end_of (some span) = span.end

-- The text of a window: up to the ends of the file where the window reaches them.
unfoldable pub window_text : Text → List Span → Window → Text
window_text text spans window =
    slice (if window.from == 0 then 0 else start_of (get_elem? spans window.from))
      (if window.to + 1 == length spans then length text else end_of (get_elem? spans window.to))
      text

-- Every window with what was read in it, or nothing if one of them does not read back. A text that is
-- missing, at which the source throws, is nothing too; the callers give one for every block.
unfoldable pub check_windows :
    BlockEngine
    → Text
    → List Span
    → List Text
    → List Window
    → Option (List (Window × List ReparsedBlock))
unfolding window_text
check_windows e text spans effective [] = some []
check_windows e text spans effective (window ∷ windows) =
    elim (check_window e.split_slice (window_text text spans window) window
      (slice window.from (window.to + 1) effective)) [
        | failed_at index ↦ none
        | threw ↦ none
        | passed blocks ↦ (elim (check_windows e text spans effective windows) [
          | none ↦ none
          | some rest ↦ some ((window, blocks) ∷ rest)
        ])
      ]
