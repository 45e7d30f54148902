-- ===== src/Serialize/Region/Flanks.antt =====
-- What the copied ends of a region read as.
use noto.Common.{
  ◌++◌, drop, length-append, length-drop, append-nil, slice, ◌-◌, ◌≤◌, ℕ, ◌+◌, ◌≡◌, refl, sym, ap,
  ◌∙◌, inl, inr, Option, some, List, [], ◌∷◌, arith, ltb, ltb→lt, Bool-cases, nat_eq, bool_eq,
  list_eq, length, get_elem?, take, length-take, Text, last?,
}
use mathlib.Core.Path.{subst}
use mathlib.Core.Option.{some-injective}
use noto.Serialize.Region.Pieces.{
  Reads-append_text, Reads, Reads-append, Reads-copied_spans, Reads-emit_gap,
}
use noto.Common.Joins.{slice_of_right, slice-take, slice-drop}
use noto.Contracts.{Block, Document, EditUnit, LineEnding}
use noto.Document.Order.{InOrder, InOrder-get_elem?, InOrder-lt}
use noto.Serialize.{BlockEngine}
use noto.Serialize.Units.{origin_block}
use noto.Serialize.Region.{
  copied_spans, copied_gaps, block_start, emit_gap, emit_prefix, emit_suffix, Emission,
}
use noto.Serialize.Region.Runs.{IsCopy, RunUp}

RunUp-last? :
    (d : Document) (n : ℕ) (units : List EditUnit) (u : EditUnit)
    → RunUp d n units
    → last? units ≡ some u
    → (k : ℕ) × (IsCopy d k u × (k + 1 ≡ n + length units))
RunUp-last? d n [] u run h = absurd (cc)
RunUp-last? d n (v ∷ []) u (copy, run) h =
    (n, (subst (IsCopy d n) (some-injective v u h) copy, omega arith))
RunUp-last? d n (v ∷ w ∷ units) u (copy, run) h =
    let (k, (at, is)) = RunUp-last? d (n + 1) (w ∷ units) u run h in (k, (at, omega (arith, is)))

last?_total : {A : Type 0} (x : A) (xs : List A) → (y : A) × (last? (x ∷ xs) ≡ some y)
last?_total x [] = (x, refl)
last?_total x (y ∷ xs) = last?_total y xs

module _ (e : BlockEngine) (d : Document) (line_ending : LineEnding)
    (ordered : InOrder 0 (length d.text) d.blocks) where
  -- Every block of the run ends before the end of its last one.
  copied_prefix :
      (k m : ℕ) (b last : Block)
      → m ≤ k
      → get_elem? d.blocks k ≡ some last
      → get_elem? d.blocks m ≡ some b
      → (slice b.start b.end d.text
          ≡ slice (b.start + 0 - 0) (b.end + 0 - 0) (take last.end d.text))
        × (b.start ≤ b.end)
        × (b.end + 0 - 0 ≤ length (take last.end d.text))
  copied_prefix k m b last le at here =
      let (_, p, q) = InOrder-get_elem? 0 (length d.text) m d.blocks b ordered here in
      let (_, r, s) = InOrder-get_elem? 0 (length d.text) k d.blocks last ordered at in
      let under : b.end ≤ last.end = elim (Bool-cases (ltb m k)) [
        | inl lt ↦ omega (
          arith,
          InOrder-lt 0 (length d.text) m k d.blocks b last ordered (ltb→lt m k lt) here at,
        )
        | inr no_lt ↦
            let same : m ≡ k = ground arith in
            let is : b ≡ last =
              some-injective b last (sym here ∙ ap (λ (n : ℕ). get_elem? d.blocks n) same ∙ at) in
            ground (arith, ap (λ (x : Block). x.end) is)
      ] in
      let a : b.start + 0 - 0 ≡ b.start = omega arith in
      let c : b.end + 0 - 0 ≡ b.end = omega arith in
      (
        rw (a, c) (sym (slice-take b.start b.end last.end d.text p under q)),
        p,
        omega (arith, under, q, length-take last.end d.text),
      )

  emit_prefix_eq :
      (prefix : List EditUnit) (u : EditUnit) (last : Block)
      → last? prefix ≡ some u
      → origin_block d u ≡ some last
      → emit_prefix e d line_ending prefix ≡ record {
        text = take last.end d.text;
        spans = copied_spans d 0 0 prefix;
        gaps = copied_gaps d line_ending prefix;
      }
  unfolding emit_prefix
  emit_prefix_eq prefix u last is here = rw (is, emit_prefix) (rw (here) refl)

  pub Reads-emit_prefix :
      (prefix : List EditUnit)
      → RunUp d 0 prefix
      → (let out = emit_prefix e d line_ending prefix in
          Reads e d line_ending out.text out.spans prefix)
  unfolding emit_prefix
  Reads-emit_prefix [] run = tt
  Reads-emit_prefix (u ∷ units) run =
      let (v, is) = last?_total u units in
      let (k, ((last, at, here, _), size)) = RunUp-last? d 0 (u ∷ units) v run is in
      subst (λ (x : Emission). Reads e d line_ending x.text x.spans (u ∷ units))
        (sym (emit_prefix_eq (u ∷ units) v last is here))
        (Reads-copied_spans e d line_ending 0 0 0 (take last.end d.text) (u ∷ units) run
          (λ m b l lt h. copied_prefix k m b last (omega arith) at h))

  copied_suffix :
      (before : Text) (n m : ℕ) (first b : Block)
      → n ≤ m
      → get_elem? d.blocks n ≡ some first
      → get_elem? d.blocks m ≡ some b
      → (let from = first.start in
          let to = length before in
          let text = before ++ drop from d.text in
          (slice b.start b.end d.text ≡ slice (b.start + to - from) (b.end + to - from) text)
          × (b.start ≤ b.end)
          × (b.end + to - from ≤ length text))
  copied_suffix before n m first b le at here =
      let (_, p, q) = InOrder-get_elem? 0 (length d.text) m d.blocks b ordered here in
      let (_, r, s) = InOrder-get_elem? 0 (length d.text) n d.blocks first ordered at in
      let from = first.start in
      let to = length before in
      let over : from ≤ b.start = elim (Bool-cases (ltb n m)) [
        | inl lt ↦ omega (
          arith,
          InOrder-lt 0 (length d.text) n m d.blocks first b ordered (ltb→lt n m lt) at here,
        )
        | inr no_lt ↦
            let same : n ≡ m = ground arith in
            let is : first ≡ b =
              some-injective first b (sym at ∙ ap (λ (k : ℕ). get_elem? d.blocks k) same ∙ here) in
            ground (arith, ap (λ (x : Block). x.start) is)
      ] in
      let moved : slice (b.start + to - from) (b.end + to - from) (before ++ drop from d.text)
          ≡ slice (from + (b.start - from)) (from + (b.end - from)) d.text =
        slice_of_right _ _ (b.start - from) (b.end - from) before (drop from d.text)
          (omega (arith, over)) (omega (arith, over, p))
        ∙ slice-drop (b.start - from) (b.end - from) from d.text in
      let a : from + (b.start - from) ≡ b.start = omega (arith, over) in
      let c : from + (b.end - from) ≡ b.end = omega (arith, over, p) in
      (
        rw (a, c) at (sym moved),
        p,
        omega (arith, over, q, length-append before (drop from d.text), length-drop from d.text),
      )

  pub Reads-emit_suffix :
      (n : ℕ) (previous : Option EditUnit) (suffix done : List EditUnit) (out : Emission)
      → RunUp d n suffix
      → Reads e d line_ending out.text out.spans done
      → (let after = emit_suffix e d line_ending previous suffix out in
          Reads e d line_ending after.text after.spans (done ++ suffix))
  unfolding emit_suffix
  Reads-emit_suffix n previous [] done out run h =
      subst (Reads e d line_ending out.text out.spans) (sym (append-nil done)) h
  Reads-emit_suffix n previous (u ∷ units) done out ((first, at, here, clean), run) h =
      let gap = emit_gap e d line_ending previous u out in
      let before =
        Reads-append_text e d line_ending gap.text (drop (block_start (origin_block d u)) d.text)
          gap.spans done (Reads-emit_gap e d line_ending previous u out done h) in
      let from : first.start ≡ block_start (origin_block d u) = ap block_start (sym here) in
      let after : Reads e d line_ending (gap.text ++ drop (block_start (origin_block d u)) d.text)
          (copied_spans d (block_start (origin_block d u)) (length gap.text) (u ∷ units))
          (u ∷ units) =
        subst
          (λ (x : ℕ).
            Reads e d line_ending (gap.text ++ drop x d.text)
              (copied_spans d x (length gap.text) (u ∷ units)) (u ∷ units))
          from
          (Reads-copied_spans e d line_ending first.start (length gap.text) n _ (u ∷ units)
            ((first, at, here, clean), run)
            (λ m b l lt g. copied_suffix gap.text n m first b l at g)) in
      Reads-append e d line_ending _ gap.spans _ done (u ∷ units) before after
