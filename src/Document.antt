-- ===== src/Document.antt =====
-- `toWire` and `parseDocument` of src/shared/markdown/v3/document.ts. The strict UTF-8 decoder of the
-- host, the hash and the splitter into blocks are parameters; the nodes for the editor are not
-- modelled.
pub mod Opened
pub mod Named
pub mod Order
use noto.Common.{
  ℕ, ◌+◌, ◌-◌, Bool, false, ◌&&◌, Option, none, some, List, [], ◌∷◌, ◌++◌, map, if◌then◌else◌, ◌==◌,
  nat_eq, list_eq, length, take, drop, Text, codes, last?,
}
use noto.Contracts.{utf8, no_bom, Block, Gap, Document, DocumentWire, markdown_version}
use noto.LineEndings.{to_lf, detect_line_ending, lf_unit}
use noto.Windows.{BlockSpan, SplitDocument}
use noto.Revision.BlockId.{make_block_id}

pub record Host : Type 0 where
  pub decode : List ℕ → Option Text
  pub sha256_bytes : List ℕ → Text
  pub sha256_text : Text → Text
  pub split_blocks : Text → SplitDocument

pub data ParseResult : Type 0 where
  parsed : Document → ParseResult
  invalid_utf8 : List ℕ → ParseResult

-- `hasBom`
unfoldable pub has_bom : List ℕ → Bool
has_bom (a ∷ b ∷ c ∷ bytes) = a == 0xef && (b == 0xbb && c == 0xbf)
has_bom _ = false

unfoldable pub to_wire : Document → DocumentWire
to_wire d = record {
  version = markdown_version;
  document_id = d.document_id;
  revision_id = d.revision_id;
  envelope = d.envelope;
  text = d.text;
  origins = map (λ b. b.origin) d.blocks;
  spans = map (λ b. record { start = b.start; end = b.end }) d.blocks;
}

module _ (host : Host) where
  unfoldable pub block_of : ℕ → BlockSpan → Block
  block_of ordinal span =
      let markdown = to_lf span.markdown in
      let digest = host.sha256_text markdown in
      let id = make_block_id ordinal (take 16 digest) in
      record {
        version = markdown_version;
        id = id;
        kind = span.kind;
        start = span.start;
        end = span.end;
        markdown = markdown;
        sha256 = digest;
        semantic_key = span.semantic_key;
        origin = record {
          block_id = id;
          ordinal = ordinal;
          kind = span.kind;
          semantic_key = span.semantic_key;
        };
      }

  unfoldable pub blocks_from : ℕ → List BlockSpan → List Block
  unfolding block_of
  blocks_from ordinal [] = []
  blocks_from ordinal (span ∷ spans) = block_of ordinal span ∷ blocks_from (ordinal + 1) spans

  unfoldable pub gaps_from : ℕ → List Text → List Gap
  gaps_from index [] = []
  gaps_from index (text ∷ gaps) =
      (record { before_ordinal = index; text = text }) ∷ gaps_from (index + 1) gaps

  -- `text.endsWith('\n')`
  unfoldable pub ends_with_lf : Text → Bool
  ends_with_lf text = elim (last? text) [ none ↦ false | some c ↦ c == lf_unit ]

  unfoldable pub document_of : List ℕ → Text → Document
  unfolding blocks_from gaps_from ends_with_lf has_bom
  document_of bytes decoded =
      let bom = has_bom bytes in
      let text = if bom then drop 1 decoded else decoded in
      let hash = host.sha256_bytes bytes in
      let split = host.split_blocks text in
      record {
        version = markdown_version;
        document_id = codes "noto-doc-v3:" ++ hash;
        revision_id = codes "noto-rev-v3:" ++ hash;
        envelope = record {
          version = markdown_version;
          byte_length = length bytes;
          bom = if bom then utf8 else no_bom;
          line_ending = detect_line_ending text;
          has_final_newline = ends_with_lf text;
          source_sha256 = hash;
        };
        original_bytes = bytes;
        text = text;
        blocks = blocks_from 0 split.spans;
        gaps = gaps_from 0 split.gaps;
        leading = split.leading;
        trailing = split.trailing;
      }

  unfoldable pub parse_document : List ℕ → ParseResult
  unfolding document_of
  parse_document bytes = elim (host.decode bytes) [
    | none ↦ invalid_utf8 bytes
    | some decoded ↦ parsed (document_of bytes decoded)
  ]
