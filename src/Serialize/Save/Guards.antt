-- ===== src/Serialize/Save/Guards.antt =====
-- Which transactions a save accepts, and the histories of a document.
use noto.Common.{
  List, ℕ, ◌≡◌, inl, inr, none, [], arith, Bool-cases, Option-cases, ◌==◌, nat_eq, bool_eq,
  list_beq_iff, list_eq, All, Text, ◌≢◌, ◌⊎◌, refl, sym, ◌∙◌, ap, drop,
}
use noto.Contracts.{Document, Transaction, blocks, source, markdown_version}
use noto.Serialize.{BlockEngine, Serialized, serialized, refused, SerializeResult, FailureCode}
use noto.Serialize.Units.{validate_origins}
use noto.Serialize.Units.Sound.{IsUnit, Rising, NoneTwice, origins, validate_origins_iff}
use mathlib.Core.Path.{subst}
use noto.Document.{parsed, parse_document}
use noto.Document.Named.{IsRevision, parse_document-IsRevision}
use noto.Serialize.Save.Sound.{IsSound, serialize_document-IsSound}
use noto.Serialize.Save.{check_transaction, serialize_blocks, serialize_source, serialize_document}

abbrev pub transaction_version : Transaction → ℕ
transaction_version (blocks t) = t.version
transaction_version (source t) = t.version

abbrev pub transaction_document : Transaction → Text
transaction_document (blocks t) = t.document_id
transaction_document (source t) = t.document_id

abbrev pub transaction_revision : Transaction → Text
transaction_revision (blocks t) = t.revision_id
transaction_revision (source t) = t.revision_id

-- What a transaction of each mode has to be based on besides.
abbrev pub FitsDocument : Document → Transaction → Type 0
FitsDocument d (blocks t) =
    All (λ u. IsUnit d u.origin u.markdown) t.units
    × (Rising none (origins t.units) × NoneTwice [] (origins t.units))
FitsDocument d (source t) = t.expected_source_sha256 ≡ d.envelope.source_sha256

abbrev pub Accepts : Document → Transaction → Type 0
Accepts d t =
    (transaction_version t ≡ markdown_version)
    × (d.version ≡ markdown_version)
    × (transaction_document t ≡ d.document_id)
    × (transaction_revision t ≡ d.revision_id)
    × FitsDocument d t

check_transaction-eq-none :
    (e : BlockEngine) (d : Document) (version : ℕ) (document_id revision_id : Text)
    → check_transaction e d version document_id revision_id ≡ none
    → (version ≡ markdown_version)
      × (d.version ≡ markdown_version)
      × (document_id ≡ d.document_id)
      × (revision_id ≡ d.revision_id)
unfolding check_transaction
check_transaction-eq-none e d version document_id revision_id h = (
  ground (arith, h),
  ground (arith, h),
  ground (arith, h, list_beq_iff document_id d.document_id),
  ground (arith, h, list_beq_iff revision_id d.revision_id),
)

pub result_cases :
    (r : SerializeResult)
    → ((code : FailureCode) × (bytes : List ℕ) × (r ≡ refused code bytes))
      ⊎ ((s : Serialized) × (r ≡ serialized s))
result_cases (refused code bytes) = inl (code, bytes, refl)
result_cases (serialized s) = inr (s, refl)

module _ (e : BlockEngine) (d : Document) where
  -- A save that succeeds was of this version, this document and this revision of it; its units were
  -- sound, if it has units, and the file had the hash that it expected, if it replaces the whole.
  pub serialize_document-Accepts :
      (t : Transaction) (s : Serialized) → serialize_document e d t ≡ serialized s → Accepts d t
  unfolding serialize_document serialize_blocks serialize_source
  serialize_document-Accepts (blocks t) s h =
      elim (Option-cases (check_transaction e d t.version t.document_id t.revision_id)) [
        | inr (code, x) ↦ absurd (cc (rw (x, serialize_document) at h))
        | inl x ↦
            let (a, b, c, f) = check_transaction-eq-none e d _ _ _ x in
            let h' = rw (x, serialize_document) at h in
            elim (Option-cases (validate_origins d t.units)) [
              | inr (code, y) ↦ absurd (cc (rw (y, serialize_blocks) at h'))
              | inl y ↦ (a, b, c, f, (validate_origins_iff d t.units).0 y)
            ]
      ]
  serialize_document-Accepts (source t) s h =
      elim (Option-cases (check_transaction e d t.version t.document_id t.revision_id)) [
        | inr (code, x) ↦ absurd (cc (rw (x, serialize_document) at h))
        | inl x ↦
            let (a, b, c, f) = check_transaction-eq-none e d _ _ _ x in
            let h' = rw (x, serialize_document) at h in
            elim (Bool-cases (t.expected_source_sha256 == d.envelope.source_sha256)) [
              | inr y ↦ absurd (cc (rw (y, serialize_source) at h'))
              | inl y ↦
                  (a, b, c, f, (list_beq_iff t.expected_source_sha256 d.envelope.source_sha256).0 y)
            ]
      ]

  -- A transaction made against another revision is refused and nothing is lost: where the bytes of
  -- the two revisions have different hashes, what is given back is what was read.
  pub serialize_document_stale :
      (old : Document) (t : Transaction)
      → IsRevision e.host old
      → IsRevision e.host d
      → transaction_revision t ≡ old.revision_id
      → e.host.sha256_bytes old.original_bytes ≢ e.host.sha256_bytes d.original_bytes
      → (code : FailureCode) × (serialize_document e d t ≡ refused code d.original_bytes)
  serialize_document_stale old t known current made differ =
      elim (result_cases (serialize_document e d t)) [
        | inl (code, bytes, is) ↦
            let sound = subst (IsSound e d) is (serialize_document-IsSound e d current t) in
            (code, is ∙ ap (refused code) sound)
        | inr (s, is) ↦
            let (_, _, _, same, _) = serialize_document-Accepts t s is in
            let ids : old.revision_id ≡ d.revision_id = sym made ∙ same in
            let hashes = ap (λ (x : Text). drop 12 x) (sym known.1 ∙ ids ∙ current.1) in
            absurd (differ hashes)
      ]

-- The documents of an editing session: one that was opened, and those that saves left.
pub data Session (e : BlockEngine) : Document → Type 0 where
  opened : (bytes : List ℕ) (d : Document) → parse_document e.host bytes ≡ parsed d → Session e d
  saved :
      (d : Document) (t : Transaction) (s : Serialized)
      → Session e d
      → serialize_document e d t ≡ serialized s
      → Session e s.document

-- However often a document that was opened is saved, by whatever transactions and with whatever
-- engine, it is a revision that describes itself: its ids and hashes are those of its bytes, and each
-- block carries its own place and the hash of its own text.
pub Session-IsRevision : (e : BlockEngine) (d : Document) → Session e d → IsRevision e.host d
Session-IsRevision e _ (opened bytes d h) = parse_document-IsRevision e.host bytes d h
Session-IsRevision e _ (saved d t s before h) =
    (subst (IsSound e d) h (serialize_document-IsSound e d (Session-IsRevision e d before) t)).2
