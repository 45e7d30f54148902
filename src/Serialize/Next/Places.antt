-- ===== src/Serialize/Next/Places.antt =====
-- Where the blocks of the next revision stand.
use noto.Common.{
  ℕ, zero, suc, ◌+◌, ◌≡◌, refl, inl, inr, Option, none, some, List, [], ◌∷◌, Bool-cases, nat_eq,
  bool_eq, list_eq, get_elem?, Text, sym, ◌∙◌,
}
use mathlib.Core.Path.{subst}
use mathlib.Core.Option.{some-injective}
use noto.Contracts.{Block, Document, EditUnit, Span}
use noto.Windows.{ReparsedBlock}
use noto.Document.{Host}
use noto.Serialize.Units.{origin_block}
use noto.Serialize.Identity.{has_ordinal}
use noto.Serialize.Next.{
  NextInput, build_next_document, kept_block, new_block, next_block, next_blocks, reparsed_at,
}

abbrev pub StandsAt : Block → Span → Type 0
StandsAt b span = (b.start ≡ span.start) × (b.end ≡ span.end)

module _ (host : Host) (d : Document) where
  next_block-StandsAt :
      (r : Option ReparsedBlock) (original : Option Block) (n : ℕ) (u : EditUnit) (markdown : Text)
      (span : Span)
      → StandsAt (next_block host d r original n u markdown span) span
  unfolding next_block kept_block new_block
  next_block-StandsAt (some r) original n u markdown span = (refl, refl)
  next_block-StandsAt none none n u markdown span = (refl, refl)
  next_block-StandsAt none (some original) n u markdown span = elim (Bool-cases (has_ordinal n u)) [
    | inl same ↦ rw (same) (refl, refl)
    | inr moved ↦ rw (moved) (refl, refl)
  ]

  -- Each block stands where the save put its unit.
  pub next_blocks-StandsAt :
      (known : List (ℕ × ReparsedBlock)) (n i : ℕ) (units : List EditUnit) (effective : List Text)
      (spans : List Span) (b : Block)
      → get_elem? (next_blocks host d known n units effective spans) i ≡ some b
      → (span : Span) × (get_elem? spans i ≡ some span) × StandsAt b span
  unfolding next_blocks
  next_blocks-StandsAt known n i [] effective spans b h = absurd (cc)
  next_blocks-StandsAt known n i (u ∷ units) [] spans b h = absurd (cc)
  next_blocks-StandsAt known n i (u ∷ units) (t ∷ effective) [] b h = absurd (cc)
  next_blocks-StandsAt known n zero (u ∷ units) (t ∷ effective) (span ∷ spans) b h =
      let placed = next_block-StandsAt (reparsed_at n known) (origin_block d u) n u t span in
      (span, refl, subst (λ (x : Block). StandsAt x span) (some-injective _ b h) placed)
  next_blocks-StandsAt known n (suc i) (u ∷ units) (t ∷ effective) (span ∷ spans) b h =
      next_blocks-StandsAt known (n + 1) i units effective spans b h

  -- The same of the revision, where the span is known.
  pub build_next_document-StandsAt :
      (input : NextInput) (i : ℕ) (b : Block) (span : Span)
      → get_elem? (build_next_document host d input).blocks i ≡ some b
      → get_elem? input.spans i ≡ some span
      → StandsAt b span
  unfolding build_next_document
  build_next_document-StandsAt input i b span is at =
      let (placed, there, stands) =
        next_blocks-StandsAt input.reparsed 0 i input.units input.effective input.spans b is in
      subst (StandsAt b) (some-injective placed span (sym there ∙ at)) stands
