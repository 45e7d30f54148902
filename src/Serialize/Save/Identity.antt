-- ===== src/Serialize/Save/Identity.antt =====
-- A save that changes nothing writes the bytes that were read.
use noto.Common.{
  ℕ, suc, ◌+◌, ◌<◌, ◌≡◌, refl, sym, ap, ◌∙◌, inl, inr, true, false, Option, none, some, List, [],
  ◌∷◌, map, arith, nat_beq_iff, Bool-cases, ◌==◌, nat_eq, bool_eq, list_beq_iff, list_eq, ==_refl,
  length, get_elem?, length-map, Text,
}
use noto.Common.Maps.{has, add, has-add}
use noto.Contracts.{
  BlockOrigin, mixed, Block, Document, EditUnit, same_origin, same_origin_iff, markdown_version,
}
use noto.Revision.BlockId.{make_block_id}
use noto.Revision.BlockId.Unique.{make_block_id_injective}
use noto.Serialize.{BlockEngine, serialized, unconverted_line_ending}
use noto.Serialize.Units.{is_pristine, validate_origins, validate_from, check_origin, not_after}
use noto.Serialize.Identity.{
  all_pristine_from, is_byte_identity_save, byte_identity_result, identity_preserved_ranges,
}
use noto.Serialize.Save.{
  serialize_document, serialize_blocks, check_transaction, identity_transaction,
}

-- The block stands at its place, its id is made from it, and it is not empty.
abbrev pub Placed : ℕ → Block → Type 0
Placed n b =
    (b.origin.ordinal ≡ n)
    × ((digest : Text) × (b.origin.block_id ≡ make_block_id n digest))
    × (0 < length b.markdown)

abbrev pub AllPlaced : Document → Type 0
AllPlaced d = (n : ℕ) (b : Block) → get_elem? d.blocks n ≡ some b → Placed n b

abbrev unit_of : Block → EditUnit
unit_of b = record { origin = some b.origin; markdown = some b.markdown }

-- The blocks from a place on.
abbrev BlocksFrom : Document → ℕ → List Block → Type 0
BlocksFrom d n rest =
    (i : ℕ) (b : Block) → get_elem? rest i ≡ some b → get_elem? d.blocks (n + i) ≡ some b

BlocksFrom-head :
    (d : Document) (n : ℕ) (b : Block) (rest : List Block)
    → BlocksFrom d n (b ∷ rest)
    → get_elem? d.blocks n ≡ some b
BlocksFrom-head d n b rest at = let e : n + 0 ≡ n = omega arith in rw e at (at 0 b refl)

BlocksFrom-tail :
    (d : Document) (n : ℕ) (b : Block) (rest : List Block)
    → BlocksFrom d n (b ∷ rest)
    → BlocksFrom d (n + 1) rest
BlocksFrom-tail d n b rest at i c h =
    let e : n + suc i ≡ n + 1 + i = omega arith in rw e at (at (suc i) c h)

nothing_seen : (x : Text) → has x [] ≡ true → ⊥
unfolding has
nothing_seen x h = cc

-- The ids that were seen are made from places before this one.
abbrev SeenBelow : ℕ → List Text → Type 0
SeenBelow n seen =
    (x : Text)
    → has x seen ≡ true
    → (m : ℕ) × (digest : Text) × ((m < n) × (x ≡ make_block_id m digest))

SeenBelow-fresh :
    (n : ℕ) (seen : List Text) (x digest : Text)
    → SeenBelow n seen
    → x ≡ make_block_id n digest
    → has x seen ≡ false
SeenBelow-fresh n seen x digest below made = elim (Bool-cases (has x seen)) [
  | inr fresh ↦ fresh
  | inl old ↦
      let (m, other, (lt, is)) = below x old in
      let e : m ≡ n = make_block_id_injective m n other digest (sym is ∙ made) in
      absurd (omega arith)
]

SeenBelow-add :
    (n : ℕ) (seen : List Text) (x digest : Text)
    → SeenBelow n seen
    → x ≡ make_block_id n digest
    → SeenBelow (n + 1) (add x seen)
SeenBelow-add n seen x digest below made y h = elim (Bool-cases (has y seen)) [
  | inl old ↦ let (m, other, (lt, is)) = below y old in (m, other, (omega arith, is))
  | inr new ↦
      let same : x ≡ y = ground (arith, has-add y x seen, h, new, list_beq_iff x y) in
      (n, digest, (omega arith, sym same ∙ made))
]

check_origin_sound :
    (d : Document) (seen : List Text) (last : Option ℕ) (o : BlockOrigin) (b : Block)
    → get_elem? d.blocks o.ordinal ≡ some b
    → same_origin b.origin o ≡ true
    → has o.block_id seen ≡ false
    → not_after o.ordinal last ≡ false
    → check_origin d seen last o ≡ none
unfolding check_origin
check_origin_sound d seen last o b at same fresh after =
    rw (at, check_origin) (rw (same, fresh, after) refl)

module _ (d : Document) (placed : AllPlaced d) where
  validate_from-unit_of :
      (n : ℕ) (seen : List Text) (last : Option ℕ) (rest : List Block)
      → BlocksFrom d n rest
      → SeenBelow n seen
      → not_after n last ≡ false
      → validate_from d seen last (map unit_of rest) ≡ none
  unfolding validate_from
  validate_from-unit_of n seen last [] at below after = refl
  validate_from-unit_of n seen last (b ∷ rest) at below after =
      let here = BlocksFrom-head d n b rest at in
      let (ordinal, (digest, made), filled) = placed n b here in
      let same : same_origin b.origin b.origin ≡ true =
        (same_origin_iff b.origin b.origin).1 refl in
      let fresh = SeenBelow-fresh n seen b.origin.block_id digest below made in
      let sound : check_origin d seen last b.origin ≡ none =
        check_origin_sound d seen last b.origin b (ap (get_elem? d.blocks) ordinal ∙ here) same
          fresh (ap (λ (x : ℕ). not_after x last) ordinal ∙ after) in
      let full : (length b.markdown == 0) ≡ false = ground arith in
      let later : not_after (n + 1) (some n) ≡ false = ground arith in
      let go =
        validate_from-unit_of (n + 1) (add b.origin.block_id seen) (some n) rest
          (BlocksFrom-tail d n b rest at) (SeenBelow-add n seen b.origin.block_id digest below made)
          later in
      rw (full, sound, ordinal) go

  all_pristine_from-unit_of :
      (n : ℕ) (rest : List Block)
      → BlocksFrom d n rest
      → all_pristine_from d n (map unit_of rest) ≡ true
  unfolding all_pristine_from is_pristine
  all_pristine_from-unit_of n [] at = refl
  all_pristine_from-unit_of n (b ∷ rest) at =
      let here = BlocksFrom-head d n b rest at in
      let (ordinal, _, _) = placed n b here in
      let e : (b.origin.ordinal == n) ≡ true = ground (arith, ordinal) in
      rw (e, here, ==_refl b.markdown)
        (all_pristine_from-unit_of (n + 1) rest (BlocksFrom-tail d n b rest at))

  validate_origins-unit_of : validate_origins d (map unit_of d.blocks) ≡ none
  unfolding validate_origins
  validate_origins-unit_of =
      validate_from-unit_of 0 [] none d.blocks (λ i b h. let e : 0 + i ≡ i = omega arith in rw e h)
        (λ x h. elim (nothing_seen x h) [ ]) refl

  is_byte_identity_save-unit_of :
      is_byte_identity_save d
        (map unit_of d.blocks)
        (record { line_ending = mixed; has_final_newline = d.envelope.has_final_newline })
      ≡ true
  unfolding is_byte_identity_save unconverted_line_ending mathlib.Core.Bool.decide
      noto.Contracts.LineEnding-discrete
  is_byte_identity_save-unit_of =
      let pristine =
        all_pristine_from-unit_of 0 d.blocks (λ i b h. let e : 0 + i ≡ i = omega arith in rw e h) in
      let same : (length (map unit_of d.blocks) == length d.blocks) ≡ true =
        (nat_beq_iff _ _).1 (length-map unit_of d.blocks) in
      rw (==_refl d.envelope.line_ending, ==_refl d.envelope.has_final_newline, same, pristine) refl

  serialize_blocks-unit_of :
      (e : BlockEngine)
      → serialize_blocks e d
          (map unit_of d.blocks)
          (record { line_ending = mixed; has_final_newline = d.envelope.has_final_newline })
        ≡ byte_identity_result e.host d
  unfolding serialize_blocks
  serialize_blocks-unit_of e =
      rw (validate_origins-unit_of, serialize_blocks) (rw (is_byte_identity_save-unit_of) refl)

  -- In a document of this version whose blocks are not empty, carry their places and have ids that
  -- are made of them, the transaction that changes nothing is accepted, gives back the bytes that
  -- were read and leaves the document as it is, whatever the engine does.
  pub serialize_document-identity_transaction :
      (e : BlockEngine)
      → d.version ≡ markdown_version
      → serialize_document e d (identity_transaction d)
        ≡ serialized (record {
          output_bytes = d.original_bytes;
          output_sha256 = d.envelope.source_sha256;
          document = d;
          preserved = identity_preserved_ranges e.host d;
        })
  unfolding serialize_document identity_transaction check_transaction byte_identity_result
  serialize_document-identity_transaction e version =
      let three : (d.version == markdown_version) ≡ true = (nat_beq_iff _ _).1 version in
      rw (three, ==_refl d.document_id, ==_refl d.revision_id, serialize_document)
        (serialize_blocks-unit_of e)
