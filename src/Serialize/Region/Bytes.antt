-- ===== src/Serialize/Region/Bytes.antt =====
-- What the save of a region writes: every unit reads, at its new place, as what it stands for.
use noto.Common.{
  true, false, ◌++◌, drop, slice, ◌-◌, ◌≤◌, ℕ, ◌+◌, ◌≡◌, refl, sym, ap, ◌∙◌, inl, inr, Option, some,
  List, arith, ltb, Bool-cases, nat_eq, bool_eq, list_eq, length, get_elem?, take, last?,
  three_parts, append_assoc, Option-cases, not, ◌&&◌, ◌||◌, ◌==◌, none,
}
use mathlib.Core.Path.{subst}
use mathlib.Core.Option.{some-injective}
use noto.LineEndings.{from_lf}
use noto.Serialize.Units.{origin_block, pristine_unit, unit_markdown, is_pristine, matches_markdown}
use noto.Common.{◌⊎◌, Text, is_some, list_beq_iff}
use noto.Contracts.{
  line_ending_eq, BlockOrigin, TargetEnvelope, Block, Document, EditUnit, LineEnding,
}
use noto.Windows.{verification_windows}
use noto.Serialize.{
  SerializeResult, Serialized, serialized, unconverted_line_ending, target_ending, BlockEngine,
}
use noto.Serialize.Cases.{case_option, case_bool}
use noto.Serialize.Windows.{effective_texts, check_windows}
use noto.Serialize.Next.Saved.{SavesAs, fail-SavesAs, built-SavesAs, SavesAs-StandsAt, slice_same}
use noto.Serialize.Region.{
  pristine_prefix_len, pristine_suffix_len, emit_region, emit_middle, save_region,
  serialize_contiguous_region, region_dirty, unit_source, emit_prefix, Emission,
}
use noto.Serialize.Region.Flanks.{Reads-emit_prefix, Reads-emit_suffix}
use noto.Serialize.Region.Runs.{RunUp-run_up, RunUp-pristine_suffix_len}
use noto.Serialize.Region.Pieces.{Reads-append_text, Reads-emit_middle, Reads-get_elem?, Reads}
use noto.Document.Order.{InOrder}

module _ (e : BlockEngine) (d : Document) (line_ending : LineEnding)
    (ordered : InOrder 0 (length d.text) d.blocks) where
  -- The whole output, made of the three parts.
  emit_region-Reads :
      (units : List EditUnit) (target : TargetEnvelope) (out : Emission)
      → pristine_prefix_len d units + pristine_suffix_len d units ≤ length units
      → emit_region e d units target line_ending
          (pristine_prefix_len d units)
          (pristine_suffix_len d units)
        ≡ some out
      → Reads e d line_ending out.text out.spans units
  unfolding emit_region
  emit_region-Reads units target out apart is =
      let from = pristine_prefix_len d units in
      let to = length units - pristine_suffix_len d units in
      let (_, _, run) = RunUp-pristine_suffix_len d units in
      let first = emit_prefix e d line_ending (take from units) in
      let whole : take from units ++ (slice from to units ++ drop to units) ≡ units =
        three_parts from to units (omega arith) in
      elim (Option-cases
        (emit_middle e d line_ending (last? (take from units)) (slice from to units) first)) [
          | inl x ↦ absurd (cc (rw (x, emit_region) at is))
          | inr (middle, x) ↦
              let start =
                Reads-emit_prefix e d line_ending ordered (take from units)
                  (RunUp-run_up d 0 units) in
              let so_far =
                Reads-emit_middle e d line_ending _ (slice from to units) first middle
                  (take from units) x start in
              let all_out =
                Reads-emit_suffix e d line_ending ordered _ (last? (take to units)) (drop to units)
                  _ middle run so_far in
              subst (λ (o : Emission). Reads e d line_ending o.text o.spans units)
                (some-injective _ out (rw (x, emit_region) at is))
                (Reads-append_text e d line_ending _ _ _ units (
                  subst (Reads e d line_ending _ _)
                    (append_assoc (take from units) (slice from to units) (drop to units) ∙ whole)
                    all_out))
        ]

module _ (e : BlockEngine) (d : Document) where
  -- A result that is there has the text and the places of an emission.
  record SavesIfAny (out : Emission) (result : Option SerializeResult) : Type 0 where
    saves : (r : SerializeResult) → result ≡ some r → SavesAs e d out.text out.spans r

  none-SavesIfAny : (out : Emission) → SavesIfAny out none
  none-SavesIfAny out = record { saves = λ r h. absurd (cc) }

  some-SavesIfAny :
      (out : Emission) (r : SerializeResult)
      → SavesAs e d out.text out.spans r
      → SavesIfAny out (some r)
  some-SavesIfAny out r c = record {
    saves = λ x h. subst (SavesAs e d out.text out.spans) (some-injective r x h) c;
  }

  save_region-SavesIfAny :
      (units : List EditUnit) (target : TargetEnvelope) (line_ending : LineEnding)
      (prefix_len suffix_len : ℕ) (out : Emission)
      → SavesIfAny out (save_region e d units target line_ending prefix_len suffix_len out)
  unfolding save_region
  save_region-SavesIfAny units target line_ending prefix_len suffix_len out =
      case_bool (SavesIfAny out) (not (length out.gaps == length units - 1)) (none-SavesIfAny out) (
        case_option (SavesIfAny out) (effective_texts d units)
          (some-SavesIfAny out _ (fail-SavesAs e d _ _ _))
          (λ effective.
            case_option (SavesIfAny out)
              (check_windows e out.text out.spans effective
                (verification_windows (region_dirty d prefix_len suffix_len units)))
              (none-SavesIfAny out)
              (λ windows.
                case_option (SavesIfAny out) _ (some-SavesIfAny out _ (fail-SavesAs e d _ _ _))
                  (λ reparsed. some-SavesIfAny out _ (built-SavesAs e d _ _ _ _)))))

  -- What a success of this path went through.
  region_saved :
      (units : List EditUnit) (target : TargetEnvelope) (line_ending : LineEnding) (s : Serialized)
      → unconverted_line_ending d target ≡ some line_ending
      → serialize_contiguous_region e d units target ≡ some (serialized s)
      → (out : Emission) × (pristine_prefix_len d units + pristine_suffix_len d units
          ≤ length units)
        × (emit_region e d units target line_ending
              (pristine_prefix_len d units)
              (pristine_suffix_len d units)
            ≡ some out)
        × SavesAs e d out.text out.spans (serialized s)
  unfolding serialize_contiguous_region
  region_saved units target line_ending s ending h =
      let from = pristine_prefix_len d units in
      let count = pristine_suffix_len d units in
      let h' = rw (ending, serialize_contiguous_region) at h in
      let skip =
        ltb (length units) (from + count)
        || ((from + count == 0)
            || (from + count == length units && length units == length d.blocks)) in
      elim (Bool-cases skip) [
        | inl x ↦ absurd (cc (rw (x) at h'))
        | inr x ↦
            let h'' = rw (x) at h' in
            elim (Option-cases (emit_region e d units target line_ending from count)) [
              | inl y ↦ absurd (cc (rw (y) at h''))
              | inr (out, y) ↦ (
                out,
                ground (arith, x),
                y,
                (save_region-SavesIfAny units target line_ending from count out).saves _
                    (rw (y) at h''),
              )
            ]
      ]

  -- A unit that stands for a block of the document as it is: it names the block and has no text of its
  -- own, or the same text.
  abbrev pub Repeats : EditUnit → Block → Type 0
  Repeats u block =
      (origin : BlockOrigin) × (u.origin ≡ some origin)
      × (get_elem? d.blocks origin.ordinal ≡ some block)
      × ((u.markdown ≡ none) ⊎ (u.markdown ≡ some block.markdown))

  -- The markdown of a unit that was changed or added: its own text.
  abbrev pub WrittenAs : LineEnding → EditUnit → Text → Type 0
  WrittenAs line_ending u text =
      ((block : Block) × Repeats u block × (text ≡ slice block.start block.end d.text))
      ⊎ ((markdown : Text) × (u.markdown ≡ some markdown)
          × ((block : Block) → ¬ Repeats u block)
          × (text ≡ from_lf markdown line_ending))

  pristine_unit_of_Repeats :
      (u : EditUnit) (block : Block)
      → Repeats u block
      → (origin_block d u ≡ some block) × (pristine_unit d u ≡ true)
  unfolding is_pristine matches_markdown
  pristine_unit_of_Repeats u block (origin, from, at, inl none_is) =
      (rw (from) at, rw (from, at, none_is, is_pristine, from) refl)
  pristine_unit_of_Repeats u block (origin, from, at, inr same) = (
    rw (from) at,
    rw (from, at, same, is_pristine, from, matches_markdown)
        ((list_beq_iff block.markdown block.markdown).1 refl),
  )

  matches_markdown-Repeats :
      (o : Option Text) (markdown : Text)
      → matches_markdown o markdown ≡ true
      → (o ≡ none) ⊎ (o ≡ some markdown)
  unfolding matches_markdown
  matches_markdown-Repeats none markdown h = inl refl
  matches_markdown-Repeats (some text) markdown h =
      inr (ap (λ x. some x) ((list_beq_iff text markdown).0 h))

  -- A unit comes from a block, or from none.
  origin_cases :
      (u : EditUnit)
      → (origin_block d u ≡ none)
        ⊎ ((block : Block) × (origin : BlockOrigin) × (u.origin ≡ some origin)
            × (get_elem? d.blocks origin.ordinal ≡ some block))
  origin_cases u = elim (Option-cases u.origin) [
    | inl is ↦ inl (rw (is) refl)
    | inr (origin, is) ↦ (elim (Option-cases (get_elem? d.blocks origin.ordinal)) [
      | inl out ↦ inl (rw (is) out)
      | inr (block, at) ↦ inr (block, origin, is, at)
    ])
  ]

  pristine_unit-Repeats :
      (u : EditUnit)
      → pristine_unit d u ≡ true
      → (block : Block) × (origin_block d u ≡ some block) × Repeats u block
  unfolding is_pristine
  pristine_unit-Repeats u h = elim (origin_cases u) [
    | inl is ↦ absurd (cc (rw (is, is_pristine) at h))
    | inr (block, origin, is, at) ↦ (
      block,
      rw (is) at,
      (
        origin,
        is,
        at,
        matches_markdown-Repeats u.markdown block.markdown (rw (is, at, is_pristine, is) at h),
      ),
    )
  ]

  own_markdown :
      (u : EditUnit) (markdown : Text)
      → pristine_unit d u ≡ false
      → unit_markdown d u ≡ some markdown
      → u.markdown ≡ some markdown
  unfolding unit_markdown
  own_markdown u markdown h is = elim (Option-cases u.markdown) [
    | inr (text, own) ↦ own ∙ (rw (own, unit_markdown) at is)
    | inl none_is ↦ elim (origin_cases u) [
      | inl from ↦ absurd (cc (rw (none_is, from, unit_markdown) at is))
      | inr (block, origin, from, at) ↦
          let (_, clean) = pristine_unit_of_Repeats u block (origin, from, at, inl none_is) in
          absurd (cc (h, clean))
    ]
  ]

  unit_source-WrittenAs :
      (line_ending : LineEnding) (u : EditUnit) (text : Text)
      → unit_source e d line_ending u ≡ some text
      → WrittenAs line_ending u text
  unfolding unit_source
  unit_source-WrittenAs line_ending u text h = elim (Bool-cases (pristine_unit d u)) [
    | inl clean ↦
        let (block, at, repeats) = pristine_unit-Repeats u clean in
        let copied = rw (clean, unit_source, at) at h in
        inl (block, repeats, sym (some-injective _ text copied))
    | inr changed ↦ elim (Option-cases (unit_markdown d u)) [
      | inl is ↦ absurd (cc (rw (changed, unit_source, is) at h))
      | inr (markdown, is) ↦ elim (Bool-cases (is_some (e.parse_single_block markdown))) [
        | inr other ↦ absurd (cc (rw (changed, unit_source, is, other) at h))
        | inl one ↦ inr (
          markdown,
          own_markdown u markdown changed is,
          λ block repeats. absurd (cc (changed, (pristine_unit_of_Repeats u block repeats).1)),
          sym (some-injective _ text (rw (changed, unit_source, is, one) at h)),
        )
      ]
    ]
  ]

  -- A save of this path keeps the line endings of the file.
  same_line_ending :
      (target : TargetEnvelope) (line_ending : LineEnding)
      → unconverted_line_ending d target ≡ some line_ending
      → line_ending ≡ d.envelope.line_ending
  unfolding unconverted_line_ending
  same_line_ending target line_ending h =
      let asked = target_ending d target in
      elim (Bool-cases (asked == d.envelope.line_ending)) [
        | inr other ↦ absurd (cc (rw (other, unconverted_line_ending) at h))
        | inl same ↦ elim (Bool-cases (target.has_final_newline == d.envelope.has_final_newline)) [
          | inr other ↦ absurd (cc (rw (same, unconverted_line_ending, other) at h))
          | inl newline ↦
              sym (
                some-injective asked line_ending (rw (same, unconverted_line_ending, newline) at h))
              ∙ (line_ending_eq.test_iff asked d.envelope.line_ending).0 same
        ]
      ]

  -- When a save copies the unchanged beginning and end of a document whose blocks stand one after
  -- another and writes the units between, every unit's block of the new revision reads as what the
  -- unit stands for, wherever the blocks moved to: if the unit names a block and has no markdown, or
  -- the same as the block, it reads as the text of that block in the document; otherwise the unit has
  -- markdown, and it reads as that, in the line endings of the document.
  pub serialize_contiguous_region-reads :
      (units : List EditUnit) (target : TargetEnvelope) (s : Serialized) (i : ℕ) (u : EditUnit)
      (new : Block)
      → InOrder 0 (length d.text) d.blocks
      → serialize_contiguous_region e d units target ≡ some (serialized s)
      → get_elem? units i ≡ some u
      → get_elem? s.document.blocks i ≡ some new
      → WrittenAs d.envelope.line_ending u (slice new.start new.end s.document.text)
  unfolding serialize_contiguous_region
  serialize_contiguous_region-reads units target s i u new ordered h at is =
      elim (Option-cases (unconverted_line_ending d target)) [
        | inl converted ↦ absurd (cc (rw (converted, serialize_contiguous_region) at h))
        | inr (line_ending, ending) ↦
            let (out, apart, emitted, saves) = region_saved units target line_ending s ending h in
            let reads = emit_region-Reads e d line_ending ordered units target out apart emitted in
            let (span, there, (source, _, _)) =
              Reads-get_elem? e d line_ending out.text out.spans units i u reads at in
            let (place, text) =
              SavesAs-StandsAt e d out.text out.spans _ saves s i new span refl is there in
            subst (λ (x : LineEnding). WrittenAs x u (slice new.start new.end s.document.text))
              (same_line_ending target line_ending ending)
              (unit_source-WrittenAs line_ending u _
                (source ∙ ap some (sym (slice_same place.0 place.1 text))))
      ]
