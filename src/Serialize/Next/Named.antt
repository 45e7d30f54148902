-- ===== src/Serialize/Next/Named.antt =====
-- The revision that a save leaves describes its own bytes, and each block its own place and text.
use noto.Common.{
  ℕ, ◌+◌, ◌≡◌, refl, inl, inr, true, Option, none, some, List, [], ◌∷◌, nat_beq_iff, Bool-cases,
  Option-cases, nat_eq, bool_eq, list_eq, get_elem?, Text,
}
use native.Mathlib.Nat.{zero-add}
use mathlib.Core.Path.{subst}
use noto.Contracts.{Block, Document, EditUnit, Span}
use noto.Windows.{ReparsedBlock}
use noto.Document.{Host}
use noto.Document.Opened.{NamesItself}
use noto.Document.Named.{NamedFrom, NamedFrom-get_elem?, IsRevision}
use noto.Serialize.Units.{origin_block}
use noto.Serialize.Identity.{has_ordinal}
use noto.Serialize.Next.{
  kept_block, new_block, next_block, next_blocks, reparsed_at, NextInput, build_next_document,
}

module _ (host : Host) (d : Document) (named : NamedFrom host 0 d.blocks) where
  origin_block-NamesItself :
      (u : EditUnit) (b : Block)
      → origin_block d u ≡ some b
      → (n : ℕ) × (NamesItself host n b × ((m : ℕ) → has_ordinal m u ≡ true → n ≡ m))
  origin_block-NamesItself u b h = elim (Option-cases u.origin) [
    | inl e ↦ absurd (cc (rw e at h))
    | inr (origin, e) ↦
        let at : get_elem? d.blocks origin.ordinal ≡ some b = rw e at h in
        (
          origin.ordinal,
          (
            rw (zero-add origin.ordinal) at
                (NamedFrom-get_elem? host 0 origin.ordinal d.blocks b named at),
            λ m k. (nat_beq_iff origin.ordinal m).0 (rw e at k),
          ),
        )
  ]

  kept_block-NamesItself :
      (n : ℕ) (u : EditUnit) (b : Block) (span : Span)
      → origin_block d u ≡ some b
      → NamesItself host n (kept_block host d n u b span)
  unfolding kept_block
  kept_block-NamesItself n u b span h =
      let (m, (own, place)) = origin_block-NamesItself u b h in
      elim (Bool-cases (has_ordinal n u)) [
        | inl same ↦
            rw (same, kept_block) (subst (λ (k : ℕ). NamesItself host k b) (place n same) own)
        | inr moved ↦ rw (moved, kept_block) (refl, refl, refl, own.3)
      ]

  next_block-NamesItself :
      (r : Option ReparsedBlock) (n : ℕ) (u : EditUnit) (markdown : Text) (span : Span)
      → NamesItself host n (next_block host d r (origin_block d u) n u markdown span)
  unfolding next_block new_block
  next_block-NamesItself (some r) n u markdown span = (refl, refl, refl, refl)
  next_block-NamesItself none n u markdown span = elim (Option-cases (origin_block d u)) [
    | inl e ↦ rw (e) (refl, refl, refl, refl)
    | inr (b, e) ↦ rw (e) (kept_block-NamesItself n u b span e)
  ]

  next_blocks-NamedFrom :
      (known : List (ℕ × ReparsedBlock)) (n : ℕ) (units : List EditUnit) (effective : List Text)
      (spans : List Span)
      → NamedFrom host n (next_blocks host d known n units effective spans)
  unfolding next_blocks
  next_blocks-NamedFrom known n [] effective spans = tt
  next_blocks-NamedFrom known n (u ∷ units) [] spans = tt
  next_blocks-NamedFrom known n (u ∷ units) (t ∷ effective) [] = tt
  next_blocks-NamedFrom known n (u ∷ units) (t ∷ effective) (span ∷ spans) = (
    next_block-NamesItself (reparsed_at n known) n u t span,
    next_blocks-NamedFrom known (n + 1) units effective spans,
  )

  pub build_next_document-IsRevision :
      (input : NextInput) → IsRevision host (build_next_document host d input)
  unfolding build_next_document
  build_next_document-IsRevision input = (
    refl,
    refl,
    refl,
    refl,
    next_blocks-NamedFrom input.reparsed 0 input.units input.effective input.spans,
  )
