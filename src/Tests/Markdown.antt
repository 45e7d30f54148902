-- ===== src/Tests/Markdown.antt =====
-- A short document, compacted, expanded and checked.
use noto.Common.{
  ℕ, ◌+◌, ◌*◌, ◌≤◌, ◌≡◌, refl, ◌↔◌, Bool, true, false, none, some, List, [], ◌∷◌, map, arith,
  nat_eq, list_eq, length, All, Text, codes,
}
use noto.Contracts.{Block, EditUnit, plain, kept, paragraph, crlf}
use noto.LineEndings.{to_lf, from_lf, detect_line_ending}
use noto.LineEndings.Laws.{to_lf-from_lf, from_lf-to_lf_crlf}
use noto.Revision.Transaction.{compact_units, expand_from}
use noto.Revision.Transaction.Expansion.{RunFits, meant, expand_iff}
use noto.Revision.Transaction.RoundTrip.{expand-compact}
use noto.Windows.{Window, BlockSpan, SplitDocument, passed, check_window, verification_windows}
use noto.Windows.Cover.{covers, near_from, verification_windows-covers}
use noto.Windows.Check.{ReadsBack, reparsed, check_window_iff}

abbrev text_block : ℕ → Block
text_block n = record {
  version = 3;
  id = codes "b";
  kind = paragraph;
  start = n * 4;
  end = n * 4 + 2;
  markdown = codes "ab";
  sha256 = codes "0";
  semantic_key = codes "p";
  origin = record { block_id = codes "b"; ordinal = n; kind = paragraph; semantic_key = codes "p" };
}

abbrev three_blocks : List Block
three_blocks = text_block 0 ∷ text_block 1 ∷ text_block 2 ∷ []

abbrev same_unit : ℕ → EditUnit
same_unit n = record { origin = some (text_block n).origin; markdown = none }

abbrev new_unit : EditUnit
new_unit = record { origin = none; markdown = some (codes "new") }

abbrev edited_units : List EditUnit
edited_units = same_unit 1 ∷ same_unit 2 ∷ new_unit ∷ same_unit 0 ∷ []

expand-compact_example :
    expand_from three_blocks [] (compact_units (map (λ b. b.origin) three_blocks) edited_units)
    ≡ some edited_units
expand-compact_example = expand-compact three_blocks edited_units (omega arith)

expand_iff_example :
    (expand_from three_blocks [] (kept (record { keep = 1; count = 2 }) ∷ plain new_unit ∷ [])
      ≡ some (same_unit 1 ∷ same_unit 2 ∷ new_unit ∷ []))
    ↔ (All (RunFits three_blocks) (kept (record { keep = 1; count = 2 }) ∷ plain new_unit ∷ [])
        × (meant three_blocks (kept (record { keep = 1; count = 2 }) ∷ plain new_unit ∷ [])
            ≡ same_unit 1 ∷ same_unit 2 ∷ new_unit ∷ [])
        × (length (same_unit 1 ∷ same_unit 2 ∷ new_unit ∷ []) ≤ 100_000))
expand_iff_example =
    expand_iff three_blocks (kept (record { keep = 1; count = 2 }) ∷ plain new_unit ∷ [])
      (same_unit 1 ∷ same_unit 2 ∷ new_unit ∷ [])

abbrev windows_text : Text
windows_text = 97 ∷ 13 ∷ 10 ∷ 98 ∷ 13 ∷ 10 ∷ []

abbrev unix_text : Text
unix_text = 97 ∷ 10 ∷ 98 ∷ 10 ∷ []

detect_windows_text : detect_line_ending windows_text ≡ crlf
unfolding detect_line_ending
detect_windows_text = refl

from_lf-to_lf_crlf_example : from_lf (to_lf windows_text) crlf ≡ windows_text
from_lf-to_lf_crlf_example = from_lf-to_lf_crlf windows_text detect_windows_text (
  (λ h. absurd (cc)),
  (
    (λ h. absurd (cc)),
    ((λ h. refl), ((λ h. absurd (cc)), ((λ h. absurd (cc)), ((λ h. refl), refl)))),
  ),
)

to_lf-from_lf_example : to_lf (from_lf unix_text crlf) ≡ unix_text
to_lf-from_lf_example =
    to_lf-from_lf unix_text crlf
      ((λ h. omega arith), ((λ h. omega arith), ((λ h. omega arith), ((λ h. omega arith), tt))))

abbrev two_changes : List Bool
two_changes = true ∷ false ∷ false ∷ false ∷ false ∷ true ∷ false ∷ []

verification_windows-covers_example :
    covers (verification_windows two_changes) 4 ≡ near_from 0 two_changes 4
verification_windows-covers_example = verification_windows-covers two_changes 4 (omega arith)

-- the whole text as one paragraph
abbrev one_span : Text → BlockSpan
one_span t = record {
  kind = paragraph;
  start = 0;
  end = length t;
  markdown = t;
  semantic_key = codes "p";
}

abbrev one_paragraph : Text → SplitDocument
one_paragraph t = record { spans = one_span t ∷ []; leading = []; gaps = []; trailing = 10 ∷ [] }

abbrev first_window : Window
first_window = record { from = 0; to = 0 }

check_window_iff_example :
    (check_window one_paragraph windows_text first_window (unix_text ∷ [])
      ≡ passed (reparsed (one_span windows_text) ∷ []))
    ↔ (ReadsBack (one_paragraph windows_text) first_window (unix_text ∷ [])
        × (reparsed (one_span windows_text) ∷ [] ≡ map reparsed (one_paragraph windows_text).spans))
check_window_iff_example =
    check_window_iff one_paragraph windows_text first_window (unix_text ∷ [])
      (reparsed (one_span windows_text) ∷ [])
