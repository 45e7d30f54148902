-- ===== src/Serialize/Next/Saved.antt =====
-- Results of a save whose document is the next revision of a text with blocks in given places.
use noto.Common.{
  ℕ, ◌≡◌, refl, sym, ap, ◌∙◌, some, List, nat_eq, bool_eq, list_eq, get_elem?, slice, Text,
}
use noto.Contracts.{Block, Document, Span}
use noto.Serialize.{
  BlockEngine, PreservedRange, SerializeResult, Serialized, serialized, refused, fail, FailureCode,
}
use noto.Serialize.Next.{NextInput, build_next_document}
use noto.Serialize.Next.Places.{StandsAt, build_next_document-StandsAt}

pub slice_same : {a b i j : ℕ} {t u : Text} → a ≡ i → b ≡ j → t ≡ u → slice a b t ≡ slice i j u
slice_same p q r = rw (p, q, r) refl

module _ (e : BlockEngine) (d : Document) where
  -- A success has the next revision of a text with blocks in given places.
  pub record SavesAs (text : Text) (spans : List Span) (result : SerializeResult) : Type 0 where
    pub saved :
        (s : Serialized)
        → result ≡ serialized s
        → (input : NextInput) × (build_next_document e.host d input ≡ s.document)
          × (input.output_text ≡ text)
          × (input.spans ≡ spans)

  pub fail-SavesAs :
      (text : Text) (spans : List Span) (code : FailureCode) → SavesAs text spans (fail d code)
  fail-SavesAs text spans code = record { saved = λ s h. absurd (cc) }

  document_of_result : Document → SerializeResult → Document
  document_of_result x (serialized s) = s.document
  document_of_result x (refused code bytes) = x

  pub built-SavesAs :
      (input : NextInput) (bytes : List ℕ) (hash : Text) (preserved : List PreservedRange)
      → SavesAs input.output_text input.spans (
          serialized (record {
            output_bytes = bytes;
            output_sha256 = hash;
            document = build_next_document e.host d input;
            preserved = preserved;
          }))
  unfolding document_of_result
  built-SavesAs input bytes hash preserved = record {
    saved = λ s h. (input, ap (document_of_result d) h, refl, refl);
  }

  -- Where the blocks of such a revision stand.
  pub SavesAs-StandsAt :
      (text : Text) (spans : List Span) (result : SerializeResult)
      → SavesAs text spans result
      → (s : Serialized) (i : ℕ) (new : Block) (span : Span) → result ≡ serialized s
      → get_elem? s.document.blocks i ≡ some new
      → get_elem? spans i ≡ some span
      → StandsAt new span × (s.document.text ≡ text)
  unfolding build_next_document
  SavesAs-StandsAt text spans result saves s i new span h is at =
      let (input, document, text_is, spans_are) = saves.saved s h in
      (
        build_next_document-StandsAt e.host d input i new span
            (ap (λ (x : Document). get_elem? x.blocks i) document ∙ is)
            (ap (λ (x : List Span). get_elem? x i) spans_are ∙ at),
        sym (ap (λ (x : Document). x.text) document) ∙ text_is,
      )
