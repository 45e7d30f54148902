-- ===== src/Serialize/Region/Pieces.antt =====
-- What the parts of the output read as: each unit, in its span, as the text it is written as.
use noto.Common.{
  ℕ, zero, suc, ◌+◌, ◌-◌, ◌≤◌, ◌<◌, ◌≡◌, refl, sym, ap, ◌∙◌, inl, inr, true, Option, none, some,
  List, [], ◌∷◌, ◌++◌, append-nil, append_assoc, arith, Option-cases, nat_eq, bool_eq, list_eq,
  length, get_elem?, slice, length-append, Text,
}
use mathlib.Core.Path.{subst}
use mathlib.Core.Option.{some-injective}
use noto.Common.Joins.{slice_of_left, slice_of_right, slice_whole}
use noto.Contracts.{Block, Document, EditUnit, LineEnding, Span}
use noto.Serialize.{BlockEngine}
use noto.Serialize.Units.{origin_block, pristine_unit}
use noto.Serialize.Region.{
  unit_source, copied_spans, block_start, block_end, emit_piece, emit_gap, emit_middle, Emission,
}
use noto.Serialize.Region.Runs.{RunUp}

module _ (e : BlockEngine) (d : Document) (line_ending : LineEnding) where
  -- In a text, a span reads as what the unit is written as.
  abbrev pub ReadsUnit : Text → Span → EditUnit → Type 0
  ReadsUnit text span u =
      (unit_source e d line_ending u ≡ some (slice span.start span.end text))
      × (span.start ≤ span.end)
      × (span.end ≤ length text)

  abbrev pub Reads : Text → List Span → List EditUnit → Type 0
  Reads text [] [] = Unit
  Reads text (span ∷ spans) (u ∷ units) = ReadsUnit text span u × Reads text spans units
  Reads text [] (u ∷ units) = ⊥
  Reads text (span ∷ spans) [] = ⊥

  pub Reads-get_elem? :
      (text : Text) (spans : List Span) (units : List EditUnit) (i : ℕ) (u : EditUnit)
      → Reads text spans units
      → get_elem? units i ≡ some u
      → (span : Span) × (get_elem? spans i ≡ some span) × ReadsUnit text span u
  Reads-get_elem? text [] [] i u h at = absurd (cc)
  Reads-get_elem? text [] (v ∷ units) i u h at = elim h [ ]
  Reads-get_elem? text (span ∷ spans) [] i u h at = elim h [ ]
  Reads-get_elem? text (span ∷ spans) (v ∷ units) zero u (h, rest) at =
      (span, refl, subst (ReadsUnit text span) (some-injective v u at) h)
  Reads-get_elem? text (span ∷ spans) (v ∷ units) (suc i) u (h, rest) at =
      Reads-get_elem? text spans units i u rest at

  -- More text after it changes nothing.
  pub Reads-append_text :
      (text more : Text) (spans : List Span) (units : List EditUnit)
      → Reads text spans units
      → Reads (text ++ more) spans units
  Reads-append_text text more [] [] h = tt
  Reads-append_text text more [] (v ∷ units) h = elim h [ ]
  Reads-append_text text more (span ∷ spans) [] h = elim h [ ]
  Reads-append_text text more (span ∷ spans) (v ∷ units) ((is, p, q), rest) = (
    (
      is ∙ ap some (sym (slice_of_left span.start span.end text more p q)),
      p,
      omega (arith, length-append text more),
    ),
    Reads-append_text text more spans units rest,
  )

  pub Reads-append :
      (text : Text) (xs ys : List Span) (us vs : List EditUnit)
      → Reads text xs us
      → Reads text ys vs
      → Reads text (xs ++ ys) (us ++ vs)
  Reads-append text [] ys [] vs h k = k
  Reads-append text [] ys (u ∷ us) vs h k = elim h [ ]
  Reads-append text (x ∷ xs) ys [] vs h k = elim h [ ]
  Reads-append text (x ∷ xs) ys (u ∷ us) vs (h, rest) k = (h, Reads-append text xs ys us vs rest k)

  -- A unit that is copied is written as its block.
  unit_source_copy :
      (u : EditUnit) (block : Block)
      → origin_block d u ≡ some block
      → pristine_unit d u ≡ true
      → unit_source e d line_ending u ≡ some (slice block.start block.end d.text)
  unfolding unit_source
  unit_source_copy u block at clean =
      rw (clean) (ap (λ (o : Option Block). some (slice (block_start o) (block_end o) d.text)) at)

  -- Blocks that are copied together read as before, where the text does at the new places.
  pub Reads-copied_spans :
      (from to n : ℕ) (text : Text) (units : List EditUnit)
      → RunUp d n units
      → ((m : ℕ) (b : Block)
          → n ≤ m
          → m < n + length units
          → get_elem? d.blocks m ≡ some b
          → (slice b.start b.end d.text ≡ slice (b.start + to - from) (b.end + to - from) text)
            × (b.start ≤ b.end)
            × (b.end + to - from ≤ length text))
      → Reads text (copied_spans d from to units) units
  unfolding copied_spans
  Reads-copied_spans from to n text [] run same = tt
  Reads-copied_spans from to n text (u ∷ units) ((block, at, here, clean), run) same =
      let (is, p, q) = same n block (omega arith) (omega arith) at in
      let rest =
        Reads-copied_spans from to (n + 1) text units run
          (λ m b l k h. same m b (omega arith) (omega arith) h) in
      rw (here, Reads) ((unit_source_copy u block here clean ∙ ap some is, omega arith, q), rest)

  pub Reads-emit_piece :
      (piece : Text) (u : EditUnit) (out : Emission) (units : List EditUnit)
      → unit_source e d line_ending u ≡ some piece
      → Reads out.text out.spans units
      → (let after = emit_piece e d line_ending piece out in
          Reads after.text after.spans (units ++ u ∷ []))
  unfolding emit_piece
  Reads-emit_piece piece u out units is h =
      let here : slice (length out.text) (length out.text + length piece) (out.text ++ piece)
          ≡ piece =
        slice_of_right _ _ 0 (length piece) out.text piece (omega arith) (omega arith)
        ∙ slice_whole piece in
      Reads-append (out.text ++ piece) out.spans _ units (u ∷ [])
        (Reads-append_text out.text piece out.spans units h)
        ((is ∙ ap some (sym here), omega arith, omega (arith, length-append out.text piece)), tt)

  pub Reads-emit_gap :
      (previous : Option EditUnit) (u : EditUnit) (out : Emission) (units : List EditUnit)
      → Reads out.text out.spans units
      → (let after = emit_gap e d line_ending previous u out in Reads after.text after.spans units)
  unfolding emit_gap
  Reads-emit_gap none u out units h = h
  Reads-emit_gap (some previous) u out units h = Reads-append_text out.text _ out.spans units h

  pub Reads-emit_middle :
      (previous : Option EditUnit) (units : List EditUnit) (out after : Emission)
      (done : List EditUnit)
      → emit_middle e d line_ending previous units out ≡ some after
      → Reads out.text out.spans done
      → Reads after.text after.spans (done ++ units)
  unfolding emit_middle
  Reads-emit_middle previous [] out after done is h =
      subst (λ (x : Emission). Reads x.text x.spans (done ++ [])) (some-injective out after is)
        (subst (Reads out.text out.spans) (sym (append-nil done)) h)
  Reads-emit_middle previous (u ∷ units) out after done is h =
      elim (Option-cases (unit_source e d line_ending u)) [
        | inl x ↦ absurd (cc (rw (x, emit_middle) at is))
        | inr (piece, x) ↦
            let gap = emit_gap e d line_ending previous u out in
            let before = Reads-emit_gap previous u out done h in
            let all_of =
              Reads-emit_middle (some u) units (emit_piece e d line_ending piece gap) after
                (done ++ u ∷ []) (rw (x, emit_middle) at is)
                (Reads-emit_piece piece u gap done x before) in
            subst (Reads after.text after.spans) (append_assoc done (u ∷ []) units) all_of
      ]
