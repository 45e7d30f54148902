-- ===== src/Document/Named.antt =====
-- What holds of every revision of a document: it describes its own bytes, and each block its own
-- place and text.
use noto.Common.{
  ℕ, zero, suc, ◌+◌, ◌≡◌, refl, inl, inr, some, List, [], ◌∷◌, ◌++◌, arith, Option-cases, nat_eq,
  bool_eq, list_eq, length, get_elem?, Text, codes,
}
use mathlib.Core.Path.{subst}
use noto.Contracts.{Block, Document, markdown_version}
use noto.Document.{Host, parsed, parse_document, document_of, blocks_from, block_of}
use noto.Windows.{BlockSpan}
use noto.Document.Opened.{NamesItself}

module _ (host : Host) where
  -- The blocks from a place on name themselves.
  abbrev pub NamedFrom : ℕ → List Block → Type 0
  NamedFrom n [] = Unit
  NamedFrom n (b ∷ bs) = NamesItself host n b × NamedFrom (n + 1) bs

  abbrev pub IsRevision : Document → Type 0
  IsRevision d =
      (d.version ≡ markdown_version)
      × (d.revision_id ≡ codes "noto-rev-v3:" ++ host.sha256_bytes d.original_bytes)
      × (d.envelope.source_sha256 ≡ host.sha256_bytes d.original_bytes)
      × (d.envelope.byte_length ≡ length d.original_bytes)
      × NamedFrom 0 d.blocks

  pub NamedFrom-get_elem? :
      (n i : ℕ) (bs : List Block) (b : Block)
      → NamedFrom n bs
      → get_elem? bs i ≡ some b
      → NamesItself host (n + i) b
  NamedFrom-get_elem? n i [] b named h = absurd (cc)
  NamedFrom-get_elem? n zero (c ∷ bs) b (first, rest) h =
      let is : c ≡ b = ground (arith, h) in
      let e : n ≡ n + 0 = omega arith in
      subst (λ (m : ℕ). NamesItself host m b) e (subst (NamesItself host n) is first)
  NamedFrom-get_elem? n (suc i) (c ∷ bs) b (first, rest) h =
      let e : n + 1 + i ≡ n + suc i = omega arith in
      subst (λ (m : ℕ). NamesItself host m b) e (NamedFrom-get_elem? (n + 1) i bs b rest h)

  blocks_from-NamedFrom : (n : ℕ) (spans : List BlockSpan) → NamedFrom n (blocks_from host n spans)
  unfolding blocks_from block_of
  blocks_from-NamedFrom n [] = tt
  blocks_from-NamedFrom n (span ∷ spans) =
      ((refl, refl, refl, refl), blocks_from-NamedFrom (n + 1) spans)

  document_of-IsRevision :
      (bytes : List ℕ) (decoded : Text) → IsRevision (document_of host bytes decoded)
  unfolding document_of
  document_of-IsRevision bytes decoded = (refl, refl, refl, refl, blocks_from-NamedFrom 0 _)

  -- Every document that was opened describes its own bytes, and each block its own place and text.
  pub parse_document-IsRevision :
      (bytes : List ℕ) (d : Document) → parse_document host bytes ≡ parsed d → IsRevision d
  unfolding parse_document
  parse_document-IsRevision bytes d h = elim (Option-cases (host.decode bytes)) [
    | inl e ↦ absurd (cc (rw (e, parse_document) at h))
    | inr (decoded, e) ↦
        let is : document_of host bytes decoded ≡ d = ground (arith, rw (e, parse_document) at h) in
        subst IsRevision is (document_of-IsRevision bytes decoded)
  ]
