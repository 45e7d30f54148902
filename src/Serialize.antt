-- ===== src/Serialize.antt =====
-- src/shared/markdown/v3/serialize.ts: from an edit of a document to the bytes that are written. The
-- results, and what the code takes from outside: the engine of the package @roobli/md, as the host's
-- adapter calls it, and the host's encoder of UTF-8. A failure has its code and the original bytes;
-- the texts of the messages are left out.
pub mod Cases
pub mod Units
pub mod Gaps
pub mod Identity
pub mod Next
pub mod Windows
pub mod Single
pub mod Region
pub mod FromEngine
pub mod Save
use noto.Common.{
  bool_eq, ℕ, Bool, not, ◌||◌, Option, none, some, List, if◌then◌else◌, ◌==◌, nat_eq, list_eq, Text,
}
use noto.Contracts.{LineEnding, mixed, line_ending_eq, BlockKind, Bom, Document, TargetEnvelope}
use noto.Windows.{SplitDocument}
use noto.Document.{Host}

pub data PreservedRole : Type 0 where
  bom_range block_range gap_range leading_range trailing_range : PreservedRole

pub record PreservedRange : Type 0 where
  pub role : PreservedRole
  pub start : ℕ
  pub end : ℕ
  pub sha256 : Text

pub data FailureCode : Type 0 where
  unsupported_version wrong_document stale_revision forged_origin duplicate_origin reordered_origin
        empty_unit multi_block_unit reparse_mismatch invalid_full_source document_integrity_failed :
      FailureCode

-- The evidence `preserved`, which the code builds when it is first read.
pub record Serialized : Type 0 where
  pub output_bytes : List ℕ
  pub output_sha256 : Text
  pub document : Document
  pub preserved : List PreservedRange

pub data SerializeResult : Type 0 where
  serialized : Serialized → SerializeResult
  refused : FailureCode → List ℕ → SerializeResult

-- `fail`
abbrev pub fail : Document → FailureCode → SerializeResult
fail d code = refused code d.original_bytes

-- What the engine is given: `EngineDocument`, `SerializeUnit`.
pub record EngineBlock : Type 0 where
  pub kind : BlockKind
  pub start : ℕ
  pub end : ℕ
  pub markdown : Text

pub record EngineDocument : Type 0 where
  pub byte_length : ℕ
  pub bom : Bom
  pub line_ending : LineEnding
  pub has_final_newline : Bool
  pub text : Text
  pub blocks : List EngineBlock
  pub gaps : List Text
  pub leading : Text
  pub trailing : Text

pub record EngineUnit : Type 0 where
  pub origin : Option ℕ
  pub markdown : Option Text

pub record EngineRange : Type 0 where
  pub role : PreservedRole
  pub start : ℕ
  pub end : ℕ

pub record EngineSaved : Type 0 where
  pub output_bytes : List ℕ
  pub text : Text
  pub document : EngineDocument
  pub preserved : List EngineRange

-- A failure of the engine has a code of its own, a text.
pub data EngineResult : Type 0 where
  engine_saved : EngineSaved → EngineResult
  engine_failed : Text → EngineResult

-- What `parseSingleBlock` says of a block.
pub record SingleBlock : Type 0 where
  pub kind : BlockKind
  pub semantic_key : Text

pub record BlockEngine : Type 0 where
  pub host : Host
  pub encode : Text → List ℕ
  pub split_slice : Text → SplitDocument
  pub parse_single_block : Text → Option SingleBlock
  pub serialize : EngineDocument → List EngineUnit → TargetEnvelope → EngineResult

-- The line ending that is asked for, where `mixed` means that of the document.
abbrev pub target_ending : Document → TargetEnvelope → LineEnding
target_ending d target =
    if target.line_ending == mixed then d.envelope.line_ending else target.line_ending

-- `unconvertedLineEnding`
unfoldable pub unconverted_line_ending : Document → TargetEnvelope → Option LineEnding
unconverted_line_ending d target =
    if not (target_ending d target == d.envelope.line_ending)
      || not (target.has_final_newline == d.envelope.has_final_newline)
    then none
    else some (target_ending d target)
