-- ===== src/Serialize/Units/Sound.antt =====
-- Which edits are let through: `validateOrigins` against what it is to make sure of.
use noto.Common.{
  ◌==◌, nat_eq, length, All, ℕ, ◌<◌, ◌≡◌, refl, ◌↔◌, inl, inr, false, Option, none, some, List, [],
  ◌∷◌, arith, Bool-cases, Option-cases, bool_eq, list_eq, get_elem?, Text,
}
use noto.Common.Maps.{has, add}
use noto.Contracts.{Block, BlockOrigin, Document, EditUnit, same_origin, same_origin_iff}
use noto.Serialize.Units.{validate_from, validate_origins, not_after, check_origin}

abbrev pub IsOrigin : Document → BlockOrigin → Type 0
IsOrigin d o = (b : Block) × (get_elem? d.blocks o.ordinal ≡ some b) × (b.origin ≡ o)

-- A unit is a block of the document, or new text; no text is empty.
abbrev pub IsUnit : Document → Option BlockOrigin → Option Text → Type 0
IsUnit d origin (some []) = ⊥
IsUnit d none none = ⊥
IsUnit d none (some (c ∷ text)) = Unit
IsUnit d (some o) none = IsOrigin d o
IsUnit d (some o) (some (c ∷ text)) = IsOrigin d o

abbrev pub origins : List EditUnit → List BlockOrigin
origins [] = []
origins (u ∷ units) = elim u.origin [ none ↦ origins units | some o ↦ o ∷ origins units ]

abbrev After : ℕ → Option ℕ → Type 0
After ordinal none = Unit
After ordinal (some last) = last < ordinal

-- The ordinals rise.
abbrev pub Rising : Option ℕ → List BlockOrigin → Type 0
Rising last [] = Unit
Rising last (o ∷ os) = After o.ordinal last × Rising (some o.ordinal) os

-- No block has the id of one before.
abbrev pub NoneTwice : List Text → List BlockOrigin → Type 0
NoneTwice seen [] = Unit
NoneTwice seen (o ∷ os) = (has o.block_id seen ≡ false) × NoneTwice (add o.block_id seen) os

not_after-After : (n : ℕ) (last : Option ℕ) → not_after n last ≡ false → After n last
not_after-After n none h = tt
not_after-After n (some m) h = ground arith

After-not_after : (n : ℕ) (last : Option ℕ) → After n last → not_after n last ≡ false
After-not_after n none h = refl
After-not_after n (some m) h = ground arith

check_origin_iff :
    (d : Document) (seen : List Text) (last : Option ℕ) (o : BlockOrigin)
    → (check_origin d seen last o ≡ none)
      ↔ (IsOrigin d o × ((has o.block_id seen ≡ false) × After o.ordinal last))
unfolding check_origin
check_origin_iff d seen last o = (forward, back)
  where
    forward :
        check_origin d seen last o ≡ none
        → IsOrigin d o × ((has o.block_id seen ≡ false) × After o.ordinal last)
    forward h = elim (Option-cases (get_elem? d.blocks o.ordinal)) [
      | inl x ↦ absurd (cc (rw (x, check_origin) at h))
      | inr (b, x) ↦
          let h' = rw (x, check_origin) at h in
          elim (Bool-cases (same_origin b.origin o)) [
            | inr y ↦ absurd (cc (rw (y) at h'))
            | inl y ↦
                let h'' = rw (y) at h' in
                elim (Bool-cases (has o.block_id seen)) [
                  | inl z ↦ absurd (cc (rw (z) at h''))
                  | inr z ↦ (
                    (b, x, (same_origin_iff b.origin o).0 y),
                    (z, not_after-After o.ordinal last (ground (arith, rw (z) at h''))),
                  )
                ]
          ]
    ]

    back :
        IsOrigin d o × ((has o.block_id seen ≡ false) × After o.ordinal last)
        → check_origin d seen last o ≡ none
    back ((b, x, same), (fresh, after)) =
        rw (x, check_origin)
          (rw ((same_origin_iff b.origin o).1 same, fresh, After-not_after o.ordinal last after)
            refl)

-- Every unit is sound, the ordinals rise and no id comes twice.
abbrev pub AllSound : Document → List Text → Option ℕ → List EditUnit → Type 0
AllSound d seen last units =
    All (λ u. IsUnit d u.origin u.markdown) units
    × (Rising last (origins units) × NoneTwice seen (origins units))

-- The units after one that has an origin.
abbrev AfterOrigin : Document → List Text → Option ℕ → BlockOrigin → List EditUnit → Type 0
AfterOrigin d seen last o units =
    (IsOrigin d o × ((has o.block_id seen ≡ false) × After o.ordinal last))
    × AllSound d (add o.block_id seen) (some o.ordinal) units

module _ (d : Document) (seen : List Text) (last : Option ℕ) where
  check_origin_then_iff :
      (o : BlockOrigin) (units : List EditUnit)
      → (validate_from d (add o.block_id seen) (some o.ordinal) units ≡ none)
        ↔ AllSound d (add o.block_id seen) (some o.ordinal) units
      → (elim (check_origin d seen last o) [
        | some code ↦ some code
        | none ↦ validate_from d (add o.block_id seen) (some o.ordinal) units
      ]
          ≡ none)
        ↔ AfterOrigin d seen last o units
  check_origin_then_iff o units rest = (
    (λ h. elim (Option-cases (check_origin d seen last o)) [
      | inl x ↦ ((check_origin_iff d seen last o).0 x, rest.0 (rw (x) at h))
      | inr (code, x) ↦ absurd (cc (rw (x) at h))
    ]),
    λ k. rw ((check_origin_iff d seen last o).1 k.0) (rest.1 k.1),
  )

  shuffle_iff :
      (o : BlockOrigin) (units : List EditUnit)
      → (validate_from d (add o.block_id seen) (some o.ordinal) units ≡ none)
        ↔ AllSound d (add o.block_id seen) (some o.ordinal) units
      → (elim (check_origin d seen last o) [
        | some code ↦ some code
        | none ↦ validate_from d (add o.block_id seen) (some o.ordinal) units
      ]
          ≡ none)
        ↔ ((IsOrigin d o × All (λ u. IsUnit d u.origin u.markdown) units)
            × ((After o.ordinal last × Rising (some o.ordinal) (origins units))
                × ((has o.block_id seen ≡ false)
                    × NoneTwice (add o.block_id seen) (origins units))))
  shuffle_iff o units rest =
      let (to, from) = check_origin_then_iff o units rest in
      (
        (λ h.
            let ((is, (fresh, after)), (units_sound, (rising, once))) = to h in
            ((is, units_sound), ((after, rising), (fresh, once)))),
        λ k. from ((k.0.0, (k.1.1.0, k.1.0.0)), (k.0.1, (k.1.0.1, k.1.1.1))),
      )

-- One unit more, by its fields.
validate_unit_iff :
    (d : Document) (seen : List Text) (last : Option ℕ) (units : List EditUnit)
    (origin : Option BlockOrigin) (markdown : Option Text)
    → ((seen : List Text) (last : Option ℕ)
        → (validate_from d seen last units ≡ none) ↔ AllSound d seen last units)
    → (validate_from d seen last ((record { origin = origin; markdown = markdown }) ∷ units) ≡ none)
      ↔ AllSound d seen last ((record { origin = origin; markdown = markdown }) ∷ units)
unfolding validate_from
validate_unit_iff d seen last units origin (some []) rest =
    ((λ h. absurd (cc h)), λ k. elim (k.0.0) [ ])
validate_unit_iff d seen last units none none rest = ((λ h. absurd (cc h)), λ k. elim (k.0.0) [ ])
validate_unit_iff d seen last units none (some (c ∷ text)) rest =
    let filled : (length (c ∷ text) == 0) ≡ false = ground arith in
    let (to, from) = rest seen last in
    rw (filled, validate_from) ((λ h. let (a, b) = to h in ((tt, a), b)), λ k. from (k.0.1, k.1))
validate_unit_iff d seen last units (some o) none rest =
    shuffle_iff d seen last o units (rest (add o.block_id seen) (some o.ordinal))
validate_unit_iff d seen last units (some o) (some (c ∷ text)) rest =
    let filled : (length (c ∷ text) == 0) ≡ false = ground arith in
    rw (filled, validate_from)
      (shuffle_iff d seen last o units (rest (add o.block_id seen) (some o.ordinal)))

validate_from_iff :
    (d : Document) (seen : List Text) (last : Option ℕ) (units : List EditUnit)
    → (validate_from d seen last units ≡ none) ↔ AllSound d seen last units
unfolding validate_from
validate_from_iff d seen last [] = ((λ h. (tt, (tt, tt))), λ h. refl)
validate_from_iff d seen last (u ∷ units) =
    validate_unit_iff d seen last units u.origin u.markdown
      (λ seen last. validate_from_iff d seen last units)

-- An edit is let through exactly when every unit is a block of the document with the origin that it
-- has there, or text of its own, no text is empty, the blocks come in the order of the document and
-- none comes twice.
pub validate_origins_iff :
    (d : Document) (units : List EditUnit)
    → (validate_origins d units ≡ none) ↔ (
        All (λ u. IsUnit d u.origin u.markdown) units
        × (Rising none (origins units) × NoneTwice [] (origins units)))
unfolding validate_origins
validate_origins_iff d units = validate_from_iff d [] none units
