-- ===== src/Serialize/Next.antt =====
-- `buildNextDocument` of serialize.ts: the revision that a save leaves, without reading it again.
pub mod Named
pub mod Places
pub mod Saved
use noto.Common.{
  ℕ, ◌+◌, ◌-◌, Option, none, some, List, [], ◌∷◌, ◌++◌, if◌then◌else◌, ◌==◌, nat_eq, bool_eq,
  list_eq, length, take, Text, codes,
}
use noto.Contracts.{
  Block, Document, EditUnit, LineEnding, Span, BlockKind, paragraph, markdown_version,
}
use noto.Windows.{ReparsedBlock}
use noto.Revision.BlockId.{make_block_id}
use noto.Document.{Host, ends_with_lf, gaps_from}
use noto.Serialize.Units.{origin_block}
use noto.Serialize.Identity.{has_ordinal}

-- `reparsedBlocks.get(index)`: a map from indices.
unfoldable pub reparsed_at : ℕ → List (ℕ × ReparsedBlock) → Option ReparsedBlock
reparsed_at index [] = none
reparsed_at index ((i, block) ∷ blocks) =
    if i == index then some block else reparsed_at index blocks

module _ (host : Host) (previous : Document) where
  -- A block that did not change: its digest is kept, and its id if it did not move.
  unfoldable pub kept_block : ℕ → EditUnit → Block → Span → Block
  kept_block ordinal u original span =
      if has_ordinal ordinal u
      then record original { start = span.start; end = span.end }
      else let id = make_block_id ordinal (take 16 original.sha256) in
        record original {
          id = id;
          start = span.start;
          end = span.end;
          origin = record {
            block_id = id;
            ordinal = ordinal;
            kind = original.kind;
            semantic_key = original.semantic_key;
          };
        }

  -- A block that changed or is new; `facts` are what was read of it.
  unfoldable pub new_block : ℕ → BlockKind → Text → Text → Span → Block
  new_block ordinal kind semantic_key markdown span =
      let digest = host.sha256_text markdown in
      let id = make_block_id ordinal (take 16 digest) in
      record {
        version = markdown_version;
        id = id;
        kind = kind;
        start = span.start;
        end = span.end;
        markdown = markdown;
        sha256 = digest;
        semantic_key = semantic_key;
        origin = record {
          block_id = id;
          ordinal = ordinal;
          kind = kind;
          semantic_key = semantic_key;
        };
      }

  unfoldable pub next_block :
      Option ReparsedBlock → Option Block → ℕ → EditUnit → Text → Span → Block
  unfolding kept_block new_block
  next_block none (some original) ordinal u markdown span = kept_block ordinal u original span
  next_block (some r) original ordinal u markdown span =
      new_block ordinal r.kind r.semantic_key markdown span
  next_block none none ordinal u markdown span = new_block ordinal paragraph [] markdown span

  -- The units with their texts and their places, from an ordinal on.
  unfoldable pub next_blocks :
      List (ℕ × ReparsedBlock) → ℕ → List EditUnit → List Text → List Span → List Block
  unfolding next_block reparsed_at
  next_blocks reparsed ordinal (u ∷ units) (markdown ∷ effective) (span ∷ spans) =
      next_block (reparsed_at ordinal reparsed) (origin_block previous u) ordinal u markdown span
      ∷ next_blocks reparsed (ordinal + 1) units effective spans
  next_blocks reparsed ordinal _ _ _ = []

pub record NextInput : Type 0 where
  pub output_text : Text
  pub output_bytes : List ℕ
  pub line_ending : LineEnding
  pub units : List EditUnit
  pub effective : List Text
  pub spans : List Span
  pub gaps : List Text
  pub leading : Text
  pub trailing : Text
  pub reparsed : List (ℕ × ReparsedBlock)

-- Every caller gives the digest of the output and the mark of the previous revision.
unfoldable pub build_next_document : Host → Document → NextInput → Document
unfolding next_blocks
build_next_document host previous input =
    let hash = host.sha256_bytes input.output_bytes in
    record {
      version = markdown_version;
      document_id = previous.document_id;
      revision_id = codes "noto-rev-v3:" ++ hash;
      envelope = record {
        version = markdown_version;
        byte_length = length input.output_bytes;
        bom = previous.envelope.bom;
        line_ending = input.line_ending;
        has_final_newline = ends_with_lf host input.output_text;
        source_sha256 = hash;
      };
      original_bytes = input.output_bytes;
      text = input.output_text;
      blocks = next_blocks host previous input.reparsed 0 input.units input.effective input.spans;
      gaps = gaps_from host 0 input.gaps;
      leading = input.leading;
      trailing = input.trailing;
    }
