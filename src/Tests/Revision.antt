-- ===== src/Tests/Revision.antt =====
-- A patch and a document, at small inputs.
use noto.Common.{
  ◌+◌, ◌-◌, ◌≤◌, ◌≡◌, refl, true, false, none, some, List, [], ◌∷◌, ◌++◌, arith, nat_eq, list_eq,
  take, drop, slice, codes,
}
use noto.Contracts.{TextSplice, Block, Document, Transaction, blocks, lf, no_bom, paragraph}
use noto.LineEndings.{to_lf, detect_line_ending}
use noto.Revision.Patch.{is_clear, splice_text, advance, shifted}
use noto.Revision.Patch.Kept.{advance-reads}
use noto.Revision.Build.{common_ends}
use noto.Revision.Build.Ends.{common_ends-splices}
use noto.Revision.Transaction.{compact_transaction, expand_transaction}
use noto.Revision.BlockId.{make_block_id}
use noto.Document.{Host, parse_document, parsed, to_wire}
use noto.Document.Opened.{expand_transaction-compact_transaction}

abbrev two_splices : List TextSplice
two_splices =
    (record { start = 0; end = 1; text = codes "xyz" })
    ∷ (record { start = 5; end = 6; text = [] })
    ∷ []

spliced : splice_text (codes "abcdef") 0 two_splices ≡ some (codes "xyzbcde")
unfolding splice_text
spliced = refl

clear : is_clear 4 (advance 2 two_splices 0 0).rest ≡ true
unfolding advance
clear = refl

advance-reads_example :
    slice
      (shifted (advance 2 two_splices 0 0) 2)
      (shifted (advance 2 two_splices 0 0) 4)
      (codes "xyzbcde")
    ≡ slice 2 4 (codes "abcdef")
advance-reads_example =
    advance-reads (codes "abcdef") (codes "xyzbcde") two_splices 2 4 spliced (omega arith)
      (omega arith) clear

common_ends-splices_example :
    (take (common_ends (codes "one two") (codes "one or two")).0 (codes "one two")
        ++ (slice
              (common_ends (codes "one two") (codes "one or two")).0
              (10 - (common_ends (codes "one two") (codes "one or two")).1)
              (codes "one or two")
            ++ drop (7 - (common_ends (codes "one two") (codes "one or two")).1) (codes "one two"))
      ≡ codes "one or two")
    × ((common_ends (codes "one two") (codes "one or two")).0
          + (common_ends (codes "one two") (codes "one or two")).1
        ≤ 7)
    × ((common_ends (codes "one two") (codes "one or two")).0
          + (common_ends (codes "one two") (codes "one or two")).1
        ≤ 10)
common_ends-splices_example = common_ends-splices (codes "one two") (codes "one or two")

-- A host that reads bytes as code units, hashes to sixteen digits and makes one paragraph.
abbrev plain_host : Host
plain_host = record {
  decode = λ bytes. some bytes;
  sha256_bytes = λ bytes. codes "0123456789abcdef";
  sha256_text = λ text. codes "0123456789abcdef";
  split_blocks = λ text. record {
    spans =
        (record { kind = paragraph; start = 0; end = 2; markdown = text; semantic_key = codes "p" })
        ∷ [];
    leading = [];
    gaps = [];
    trailing = [];
  };
}

abbrev first_block : Block
first_block = record {
  version = 3;
  id = codes "noto-block-v3:0:0123456789abcdef";
  kind = paragraph;
  start = 0;
  end = 2;
  markdown = to_lf (codes "ab");
  sha256 = codes "0123456789abcdef";
  semantic_key = codes "p";
  origin = record {
    block_id = codes "noto-block-v3:0:0123456789abcdef";
    ordinal = 0;
    kind = paragraph;
    semantic_key = codes "p";
  };
}

abbrev opened : Document
opened = record {
  version = 3;
  document_id = codes "noto-doc-v3:0123456789abcdef";
  revision_id = codes "noto-rev-v3:0123456789abcdef";
  envelope = record {
    version = 3;
    byte_length = 2;
    bom = no_bom;
    line_ending = detect_line_ending (codes "ab");
    has_final_newline = false;
    source_sha256 = codes "0123456789abcdef";
  };
  original_bytes = codes "ab";
  text = codes "ab";
  blocks = first_block ∷ [];
  gaps = [];
  leading = [];
  trailing = [];
}

parse_ab : parse_document plain_host (codes "ab") ≡ parsed opened
unfolding parse_document make_block_id
parse_ab = refl

abbrev edit : Transaction
edit = blocks (record {
  version = 3;
  document_id = opened.document_id;
  revision_id = opened.revision_id;
  units =
      (record { origin = some first_block.origin; markdown = none })
      ∷ (record { origin = none; markdown = some (codes "new") })
      ∷ [];
  envelope = record { line_ending = lf; has_final_newline = false };
})

expand_transaction-compact_transaction_example :
    expand_transaction (compact_transaction edit (to_wire opened)) opened ≡ some edit
expand_transaction-compact_transaction_example =
    expand_transaction-compact_transaction edit opened (omega arith)
