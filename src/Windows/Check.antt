-- ===== src/Windows/Check.antt =====
-- What a window that passes the check has been shown to be.
use noto.Common.{
  ℕ, ◌+◌, ◌-◌, ◌≡◌, refl, sym, ap, ◌∙◌, ◌↔◌, inl, inr, Bool, true, false, ◌&&◌, List, [], ◌∷◌, ◌++◌,
  map, append-nil, append_assoc, arith, nat_beq, if◌then◌else◌, nat_beq_iff, Bool-cases, ◌==◌,
  nat_eq, list_beq_iff, list_eq, length, slice, all, Text,
}
use noto.LineEndings.{to_lf}
use noto.Windows.{
  Window, BlockSpan, SplitDocument, ReparsedBlock, WindowCheck, passed, failed_at, threw, is_blank,
  check_spans, check_window,
}

-- Each span reads as its text, up to line endings.
abbrev pub Reads : List BlockSpan → List Text → Type 0
Reads [] expected = Unit
Reads (span ∷ spans) [] = ⊥
Reads (span ∷ spans) (text ∷ expected) = (to_lf span.markdown ≡ to_lf text) × Reads spans expected

abbrev pub reparsed : BlockSpan → ReparsedBlock
reparsed span = record {
  kind = span.kind;
  semantic_key = span.semantic_key;
  markdown = to_lf span.markdown;
}

check_spans-eq-passed :
    (index : ℕ) (spans : List BlockSpan) (expected : List Text) (blocks out : List ReparsedBlock)
    → check_spans index spans expected blocks ≡ passed out
    → Reads spans expected × (out ≡ blocks ++ map reparsed spans)
unfolding check_spans
check_spans-eq-passed index [] expected blocks out h = (tt, ground (arith, append-nil blocks))
check_spans-eq-passed index (span ∷ spans) [] blocks out h = absurd (cc)
check_spans-eq-passed index (span ∷ spans) (text ∷ expected) blocks out h =
    elim (Bool-cases (to_lf span.markdown == to_lf text)) [
      | inl same ↦
          let (reads, is) =
            check_spans-eq-passed (index + 1) spans expected (blocks ++ reparsed span ∷ []) out
              (rw (same, check_spans) at h) in
          (
            ((list_beq_iff (to_lf span.markdown) (to_lf text)).0 same, reads),
            is ∙ append_assoc blocks (reparsed span ∷ []) (map reparsed spans),
          )
      | inr other ↦ absurd (cc (rw (other, check_spans) at h))
    ]

check_spans_of_Reads :
    (index : ℕ) (spans : List BlockSpan) (expected : List Text) (blocks : List ReparsedBlock)
    → Reads spans expected
    → check_spans index spans expected blocks ≡ passed (blocks ++ map reparsed spans)
unfolding check_spans
check_spans_of_Reads index [] expected blocks r = rw append-nil
check_spans_of_Reads index (span ∷ spans) [] blocks r = elim r [ ]
check_spans_of_Reads index (span ∷ spans) (text ∷ expected) blocks (same, r) =
    let ih = check_spans_of_Reads (index + 1) spans expected (blocks ++ reparsed span ∷ []) r in
    rw ((list_beq_iff (to_lf span.markdown) (to_lf text)).1 same, check_spans)
      (ih ∙ ap passed (append_assoc blocks (reparsed span ∷ []) (map reparsed spans)))

-- The window reads back as the blocks that were meant: as many of them, each with its text, and
-- nothing but blanks before the first and after the last.
pub record ReadsBack (split : SplitDocument) (window : Window) (expected : List Text) : Type 0 where
  pub count : length split.spans ≡ window.to - window.from + 1
  pub texts : Reads split.spans expected
  pub leading : all is_blank split.leading ≡ true
  pub trailing : all is_blank split.trailing ≡ true

-- the end of the check, after the loop
closing :
    (c : WindowCheck) (blank : Bool) (from : ℕ) (out : List ReparsedBlock)
    → (elim c [
      | failed_at index ↦ failed_at index
      | threw ↦ threw
      | passed blocks ↦ if blank then passed blocks else failed_at from
    ])
      ≡ passed out
    → (c ≡ passed out) × (blank ≡ true)
closing (passed blocks) true from out h = (h, refl)
closing (passed blocks) false from out h = absurd (cc)
closing (failed_at i) blank from out h = absurd (cc)
closing threw blank from out h = absurd (cc)

-- A window passes exactly when its slice, parsed on its own, reads back as the blocks that were
-- meant; the facts about the blocks are then those of the parse.
pub check_window_iff :
    (split_blocks : Text → SplitDocument) (slice : Text) (window : Window) (expected : List Text)
    (out : List ReparsedBlock)
    → (check_window split_blocks slice window expected ≡ passed out) ↔ (
        ReadsBack (split_blocks slice) window expected
        × (out ≡ map reparsed (split_blocks slice).spans))
unfolding check_window
check_window_iff split_blocks slice window expected out = (to, from)
  where
    to :
        check_window split_blocks slice window expected ≡ passed out
        → ReadsBack (split_blocks slice) window expected
          × (out ≡ map reparsed (split_blocks slice).spans)
    to h =
        elim (Bool-cases
          (nat_beq (length (split_blocks slice).spans) (window.to - window.from + 1))) [
            | inl count ↦
                let (all_passed, blank) =
                  closing (check_spans window.from (split_blocks slice).spans expected [])
                    (all is_blank (split_blocks slice).leading
                      && all is_blank (split_blocks slice).trailing)
                    window.from out (rw (count, check_window) at h) in
                let (reads, is) =
                  check_spans-eq-passed window.from (split_blocks slice).spans expected [] out
                    all_passed in
                (
                  record {
                    count = (nat_beq_iff _ _).0 count;
                    texts = reads;
                    leading = ground (arith, blank);
                    trailing = ground (arith, blank);
                  },
                  is,
                )
            | inr other ↦ absurd (cc (rw (other, check_window) at h))
          ]

    from :
        ReadsBack (split_blocks slice) window expected
          × (out ≡ map reparsed (split_blocks slice).spans)
        → check_window split_blocks slice window expected ≡ passed out
    from (r, e) =
        rw ((nat_beq_iff _ _).1 r.count, check_window)
          (rw
            (
              check_spans_of_Reads window.from (split_blocks slice).spans expected [] r.texts,
              r.leading,
              r.trailing,
            )
            (ap passed (sym e)))
