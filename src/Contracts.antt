-- ===== src/Contracts.antt =====
-- The types of src/shared/markdown/v3/contracts.ts. The mdast nodes that a document may carry for
-- the editor's own use, and the two fields that describe them, are not modelled.
use noto.Common.{
  true, ℕ, Bool, Option, List, Text, Eq, ◌≡◌, ◌↔◌, ◌&&◌, ◌==◌, list_eq, nat_eq, arith, discrete_eq,
  list_beq_iff, nat_beq_iff,
}
use mathlib.Core.Bool.{decide_iff}

abbrev pub markdown_version : ℕ
markdown_version = 3

pub data LineEnding : Type 0 where
  lf crlf mixed : LineEnding

pub data BlockKind : Type 0 where
  heading paragraph bullet_list ordered_list task_list quote fenced_code indented_code table
        display_math frontmatter html thematic_break footnote_definition link_definition :
      BlockKind

pub data Bom : Type 0 where
  utf8 no_bom : Bom

unfoldable pub LineEnding-discrete : Discrete LineEnding
LineEnding-discrete = hlevel

unfoldable pub BlockKind-discrete : Discrete BlockKind
BlockKind-discrete = hlevel

instance abbrev pub line_ending_eq : Eq LineEnding
line_ending_eq = discrete_eq LineEnding-discrete

instance abbrev pub block_kind_eq : Eq BlockKind
block_kind_eq = discrete_eq BlockKind-discrete

pub record Envelope : Type 0 where
  pub version : ℕ
  pub byte_length : ℕ
  pub bom : Bom
  pub line_ending : LineEnding
  pub has_final_newline : Bool
  pub source_sha256 : Text

pub record BlockOrigin : Type 0 where
  pub block_id : Text
  pub ordinal : ℕ
  pub kind : BlockKind
  pub semantic_key : Text

pub record Block : Type 0 where
  pub version : ℕ
  pub id : Text
  pub kind : BlockKind
  pub start : ℕ
  pub end : ℕ
  pub markdown : Text
  pub sha256 : Text
  pub semantic_key : Text
  pub origin : BlockOrigin

pub record Gap : Type 0 where
  pub before_ordinal : ℕ
  pub text : Text

pub record Document : Type 0 where
  pub version : ℕ
  pub document_id : Text
  pub revision_id : Text
  pub envelope : Envelope
  pub original_bytes : List ℕ
  pub text : Text
  pub blocks : List Block
  pub gaps : List Gap
  pub leading : Text
  pub trailing : Text

pub record Span : Type 0 where
  pub start : ℕ
  pub end : ℕ

pub record DocumentWire : Type 0 where
  pub version : ℕ
  pub document_id : Text
  pub revision_id : Text
  pub envelope : Envelope
  pub text : Text
  pub origins : List BlockOrigin
  pub spans : List Span

-- `NotoUnit`: no markdown means that the unit is unchanged
pub record EditUnit : Type 0 where
  pub origin : Option BlockOrigin
  pub markdown : Option Text

pub record TargetEnvelope : Type 0 where
  pub line_ending : LineEnding
  pub has_final_newline : Bool

-- The two modes of `NotoTransaction`; `U` is the type of units, which differs on the wire.
pub record BlocksTransaction (U : Type 0) : Type 0 where
  pub version : ℕ
  pub document_id : Text
  pub revision_id : Text
  pub units : List U
  pub envelope : TargetEnvelope

pub record SourceTransaction : Type 0 where
  pub version : ℕ
  pub document_id : Text
  pub revision_id : Text
  pub expected_source_sha256 : Text
  pub source_bytes : List ℕ

pub data TransactionOf (U : Type 0) : Type 0 where
  blocks : BlocksTransaction U → TransactionOf U
  source : SourceTransaction → TransactionOf U

abbrev pub Transaction : Type 0
Transaction = TransactionOf EditUnit

pub record KeptRun : Type 0 where
  pub keep : ℕ
  pub count : ℕ

pub data WireUnit : Type 0 where
  plain : EditUnit → WireUnit
  kept : KeptRun → WireUnit

abbrev pub TransactionWire : Type 0
TransactionWire = TransactionOf WireUnit

pub record TextSplice : Type 0 where
  pub start : ℕ
  pub end : ℕ
  pub text : Text

pub record KeptBlocks : Type 0 where
  pub keep : ℕ
  pub count : ℕ
  pub first_block_id : Text

pub record PatchedBlock : Type 0 where
  pub origin : BlockOrigin
  pub start : ℕ
  pub end : ℕ

pub data PatchEntry : Type 0 where
  moved : KeptBlocks → PatchEntry
  patched : PatchedBlock → PatchEntry

pub record RevisionPatch : Type 0 where
  pub version : ℕ
  pub base_revision_id : Text
  pub revision_id : Text
  pub envelope : Envelope
  pub splices : List TextSplice
  pub blocks : List PatchEntry

-- `sameOrigin` of revision-patch.ts and of serialize.ts
unfoldable pub same_origin : BlockOrigin → BlockOrigin → Bool
same_origin left right =
    left.block_id == right.block_id
    && (left.ordinal == right.ordinal
        && (left.kind == right.kind && left.semantic_key == right.semantic_key))

-- Two origins are taken for the same exactly when they are equal in every field.
pub same_origin_iff : (a b : BlockOrigin) → (same_origin a b ≡ true) ↔ (a ≡ b)
unfolding same_origin
same_origin_iff a b = ground (
  arith,
  list_beq_iff a.block_id b.block_id,
  nat_beq_iff a.ordinal b.ordinal,
  decide_iff (BlockKind-discrete a.kind b.kind),
  list_beq_iff a.semantic_key b.semantic_key,
)
