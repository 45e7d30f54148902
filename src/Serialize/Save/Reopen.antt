-- ===== src/Serialize/Save/Reopen.antt =====
-- A file that is opened and saved without an edit.
use noto.Common.{ℕ, ◌<◌, ◌≡◌, ◌∙◌, some, List, nat_eq, bool_eq, list_eq, length, get_elem?, take}
use noto.Contracts.{Block, Document}
use noto.Document.{parsed, parse_document}
use noto.Document.Opened.{parse_document-ReadFrom, parse_document-NamesItself}
use noto.Serialize.{BlockEngine, serialized}
use noto.Serialize.Identity.{identity_preserved_ranges}
use noto.Serialize.Save.{serialize_document, identity_transaction}
use noto.Serialize.Save.Identity.{AllPlaced, serialize_document-identity_transaction}

-- A file that is opened, and has no empty block, is saved without an edit as the very bytes that were
-- read, under their own hash, and the document stays the same, whatever the engine does.
pub serialize_document-parse_document :
    (e : BlockEngine) (bytes : List ℕ) (d : Document)
    → parse_document e.host bytes ≡ parsed d
    → ((n : ℕ) (b : Block) → get_elem? d.blocks n ≡ some b → 0 < length b.markdown)
    → serialize_document e d (identity_transaction d)
      ≡ serialized (record {
        output_bytes = bytes;
        output_sha256 = e.host.sha256_bytes bytes;
        document = d;
        preserved = identity_preserved_ranges e.host d;
      })
serialize_document-parse_document e bytes d h filled =
    let (version, same_bytes, same_hash) = parse_document-ReadFrom e.host bytes d h in
    let placed : AllPlaced d = λ n b at.
      let (ordinal, id, made, _) = parse_document-NamesItself e.host bytes d n b h at in
      (ordinal, (take 16 b.sha256, id ∙ made), filled n b at) in
    rw (← same_hash, ← same_bytes) (serialize_document-identity_transaction d placed e version)
