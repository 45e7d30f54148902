-- ===== src/Windows.antt =====
-- src/shared/markdown/v3/incremental.ts: checking a save by reparsing only what lies beside a change.
pub mod Cover
pub mod Check
use noto.Common.{
  ℕ, ◌+◌, ◌-◌, min, max, Bool, true, false, not, ◌&&◌, ◌||◌, Option, none, some, List, [], ◌∷◌,
  ◌++◌, leb, if◌then◌else◌, ◌==◌, nat_eq, list_eq, length, slice, all, Text,
}
use noto.LineEndings.{to_lf}
use noto.Contracts.{BlockKind}

pub record Window : Type 0 where
  pub from : ℕ
  pub to : ℕ

abbrev pub last_window : Option Window → List Window
last_window none = []
last_window (some w) = w ∷ []

-- The loop of `verificationWindows` over the units from `index` on, of `total` in all. The last
-- window so far is `open_window`; the windows before it are already given out.
unfoldable pub windows_from : ℕ → ℕ → Option Window → List Bool → List Window
windows_from total index open_window [] = last_window open_window
windows_from total index open_window (false ∷ dirty) =
    windows_from total (index + 1) open_window dirty
windows_from total index none (true ∷ dirty) =
    windows_from total (index + 1)
      (some (record { from = index - 1; to = min (total - 1) (index + 1) })) dirty
windows_from total index (some last) (true ∷ dirty) =
    let from = index - 1 in
    let to = min (total - 1) (index + 1) in
    let merged =
      windows_from total (index + 1) (some (record { from = last.from; to = max last.to to }))
        dirty in
    let apart =
      last ∷ windows_from total (index + 1) (some (record { from = from; to = to })) dirty in
    if leb from (last.to + 1) then merged else apart

unfoldable pub verification_windows : List Bool → List Window
unfolding windows_from
verification_windows dirty = windows_from (length dirty) 0 none dirty

-- `BlockSpan` and `SplitDocument` of blocks.ts, less the mdast nodes
pub record BlockSpan : Type 0 where
  pub kind : BlockKind
  pub start : ℕ
  pub end : ℕ
  pub markdown : Text
  pub semantic_key : Text

pub record SplitDocument : Type 0 where
  pub spans : List BlockSpan
  pub leading : Text
  pub gaps : List Text
  pub trailing : Text

pub record ReparsedBlock : Type 0 where
  pub kind : BlockKind
  pub semantic_key : Text
  pub markdown : Text

pub data WindowCheck : Type 0 where
  passed : List ReparsedBlock → WindowCheck
  failed_at : ℕ → WindowCheck
  threw : WindowCheck

-- What `trim` takes off: white space and line terminators.
abbrev pub is_blank : ℕ → Bool
is_blank c =
    (leb 9 c && leb c 13)
    || (c == 32
        || (c == 0xa0
            || (c == 0x1680
                || ((leb 0x2000 c && leb c 0x200a)
                    || (c == 0x2028
                        || (c == 0x2029
                            || (c == 0x202f || (c == 0x205f || (c == 0x3000 || c == 0xfeff)))))))))

-- The loop over the spans of a window; without a text for a span, `toLf` throws.
unfoldable pub check_spans : ℕ → List BlockSpan → List Text → List ReparsedBlock → WindowCheck
check_spans index (span ∷ spans) (text ∷ expected) blocks =
    let rest = check_spans (index + 1) spans expected (
      blocks
      ++ (record {
        kind = span.kind;
        semantic_key = span.semantic_key;
        markdown = to_lf span.markdown;
      })
        ∷ []) in
    if to_lf span.markdown == to_lf text then rest else failed_at index
check_spans index (span ∷ spans) [] blocks = threw
check_spans index [] expected blocks = passed blocks

-- `checkWindow`, over the parser `splitBlocks`.
unfoldable pub check_window : (Text → SplitDocument) → Text → Window → List Text → WindowCheck
unfolding check_spans
check_window split_blocks slice window expected =
    let split = split_blocks slice in
    if not (length split.spans == window.to - window.from + 1)
    then failed_at window.from
    else elim (check_spans window.from split.spans expected []) [
      | failed_at index ↦ failed_at index
      | threw ↦ threw
      | passed blocks ↦
          if all is_blank split.leading && all is_blank split.trailing
          then passed blocks
          else failed_at window.from
    ]
