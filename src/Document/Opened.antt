-- ===== src/Document/Opened.antt =====
-- What holds of a document that was opened, and of an edit sent against it.
use noto.Common.{
  ℕ, zero, suc, ◌+◌, ◌≤◌, ◌≡◌, refl, ap, ◌∙◌, inl, inr, some, List, [], ◌∷◌, map, arith,
  Option-cases, nat_eq, list_eq, length, get_elem?, take,
}
use native.Mathlib.Nat.{zero-add}
use mathlib.Core.Path.{subst}
use noto.Contracts.{markdown_version, Block, Document, Transaction, blocks, source}
use noto.Windows.{BlockSpan}
use noto.Revision.BlockId.{make_block_id}
use noto.Revision.Transaction.{
  compact_transaction, expand_transaction, compact_units, expand_from, max_transaction_units,
}
use noto.Revision.Transaction.RoundTrip.{expand-compact}
use noto.Document.{Host, parsed, to_wire, parse_document, blocks_from, block_of, document_of}

-- The units of a transaction that is made of blocks.
abbrev pub unit_count : Transaction → ℕ
unit_count (blocks t) = length t.units
unit_count (source t) = 0

-- An edit that the renderer compacts against the document as it was sent to it, and that the main
-- process expands against the document itself, arrives unchanged, whatever it does to the blocks, if
-- it has at most 100,000 units.
pub expand_transaction-compact_transaction :
    (t : Transaction) (d : Document)
    → unit_count t ≤ max_transaction_units
    → expand_transaction (compact_transaction t (to_wire d)) d ≡ some t
unfolding compact_transaction expand_transaction to_wire
expand_transaction-compact_transaction (source t) d h = refl
expand_transaction-compact_transaction (blocks t) d h =
    let e : expand_from d.blocks [] (compact_units (map (λ b. b.origin) d.blocks) t.units)
        ≡ some t.units =
      expand-compact d.blocks t.units h in
    rw (e, expand_transaction)

module _ (host : Host) where
  -- A block that names itself: its place, and the first 16 digits of the hash of its text.
  abbrev pub NamesItself : ℕ → Block → Type 0
  NamesItself n b =
      (b.origin.ordinal ≡ n)
      × (b.origin.block_id ≡ b.id)
      × (b.id ≡ make_block_id n (take 16 b.sha256))
      × (b.sha256 ≡ host.sha256_text b.markdown)

  blocks_from-NamesItself :
      (ordinal n : ℕ) (spans : List BlockSpan) (b : Block)
      → get_elem? (blocks_from host ordinal spans) n ≡ some b
      → NamesItself (ordinal + n) b
  unfolding blocks_from block_of
  blocks_from-NamesItself ordinal n [] b h = absurd (cc)
  blocks_from-NamesItself ordinal zero (span ∷ spans) b h =
      let is : block_of host ordinal span ≡ b = ground (arith, h) in
      let e : ordinal + 0 ≡ ordinal = omega arith in rw (e, ← is) (refl, refl, refl, refl)
  blocks_from-NamesItself ordinal (suc n) (span ∷ spans) b h =
      let e : ordinal + suc n ≡ ordinal + 1 + n = omega arith in
      rw e (blocks_from-NamesItself (ordinal + 1) n spans b h)

  -- In a document that was opened, the block at each place carries that place, and its id is made of
  -- the place and the hash of its own text with the line endings converted.
  pub parse_document-NamesItself :
      (bytes : List ℕ) (d : Document) (n : ℕ) (b : Block)
      → parse_document host bytes ≡ parsed d
      → get_elem? d.blocks n ≡ some b
      → NamesItself n b
  unfolding parse_document document_of
  parse_document-NamesItself bytes d n b h at = elim (Option-cases (host.decode bytes)) [
    | inl e ↦ absurd (cc (rw (e, parse_document) at h))
    | inr (decoded, e) ↦
        let is : document_of host bytes decoded ≡ d = ground (arith, rw (e, parse_document) at h) in
        rw (zero-add n) at
          (blocks_from-NamesItself 0 n _ b (ap (λ (x : Document). get_elem? x.blocks n) is ∙ at))
  ]

-- What a document that was opened says of the bytes it was read from.
abbrev pub ReadFrom : Host → List ℕ → Document → Type 0
ReadFrom host bytes d =
    (d.version ≡ markdown_version)
    × (d.original_bytes ≡ bytes)
    × (d.envelope.source_sha256 ≡ host.sha256_bytes bytes)

pub parse_document-ReadFrom :
    (host : Host) (bytes : List ℕ) (d : Document)
    → parse_document host bytes ≡ parsed d
    → ReadFrom host bytes d
unfolding parse_document document_of
parse_document-ReadFrom host bytes d h = elim (Option-cases (host.decode bytes)) [
  | inl e ↦ absurd (cc (rw (e, parse_document) at h))
  | inr (decoded, e) ↦
      let is : document_of host bytes decoded ≡ d = ground (arith, rw (e, parse_document) at h) in
      subst (ReadFrom host bytes) is (refl, refl, refl)
]
