-- ===== src/Serialize/Identity.antt =====
-- A save that changes nothing: `isByteIdentitySave`, `identityPreservedRanges` and
-- `byteIdentityResult` of serialize.ts.
use noto.Common.{
  ℕ, ◌+◌, ◌-◌, Bool, true, false, ◌&&◌, Option, none, some, List, [], ◌∷◌, ◌++◌, ltb, if◌then◌else◌,
  is_some, ◌==◌, nat_eq, list_eq, length, get_elem?, last?,
}
use noto.Contracts.{Block, Document, EditUnit, TargetEnvelope, utf8, no_bom}
use noto.Document.{Host}
use noto.Serialize.{
  PreservedRange, bom_range, leading_range, block_range, gap_range, trailing_range, SerializeResult,
  serialized, unconverted_line_ending,
}
use noto.Serialize.Units.{is_pristine}
use noto.Serialize.Gaps.{gap_after}

abbrev pub has_ordinal : ℕ → EditUnit → Bool
has_ordinal index u = elim u.origin [ none ↦ false | some origin ↦ origin.ordinal == index ]

-- The loop over the units, from an index on.
unfoldable pub all_pristine_from : Document → ℕ → List EditUnit → Bool
unfolding is_pristine
all_pristine_from d index [] = true
all_pristine_from d index (u ∷ units) =
    has_ordinal index u
    && (is_pristine u (get_elem? d.blocks index) && all_pristine_from d (index + 1) units)

unfoldable pub is_byte_identity_save : Document → List EditUnit → TargetEnvelope → Bool
unfolding all_pristine_from
is_byte_identity_save d units target =
    is_some (unconverted_line_ending d target)
    && (length units == length d.blocks && all_pristine_from d 0 units)

abbrev pub utf8_bom : List ℕ
utf8_bom = 0xef ∷ 0xbb ∷ 0xbf ∷ []

module _ (host : Host) (d : Document) where
  unfoldable pub bom_evidence : List PreservedRange
  bom_evidence = elim d.envelope.bom [
    | utf8 ↦
        (record { role = bom_range; start = 0; end = 3; sha256 = host.sha256_bytes utf8_bom }) ∷ []
    | no_bom ↦ []
  ]

  unfoldable pub leading_evidence : List PreservedRange
  leading_evidence =
      if ltb 0 (length d.leading)
      then (record {
        role = leading_range;
        start = 0;
        end = length d.leading;
        sha256 = host.sha256_text d.leading;
      })
        ∷ []
      else []

  unfoldable pub trailing_evidence : List PreservedRange
  trailing_evidence = elim (last? d.blocks) [
    | none ↦ []
    | some last ↦
        if ltb 0 (length d.trailing)
        then (record {
          role = trailing_range;
          start = last.end;
          end = length d.text;
          sha256 = host.sha256_text d.trailing;
        })
          ∷ []
        else []
  ]

  -- The gap before a block, with the block before it.
  unfoldable pub gap_before_evidence : ℕ → Option Block → Block → List PreservedRange
  unfolding gap_after
  gap_before_evidence index none block = []
  gap_before_evidence index (some previous) block = elim (gap_after d (index - 1)) [
    | none ↦ []
    | some text ↦
        (record {
          role = gap_range;
          start = previous.end;
          end = block.start;
          sha256 = host.sha256_text text;
        })
        ∷ []
  ]

  abbrev pub block_evidence : Block → PreservedRange
  block_evidence block = record {
    role = block_range;
    start = block.start;
    end = block.end;
    sha256 = block.sha256;
  }

  -- The loop over the blocks; `skip` says of which index there is no evidence.
  unfoldable pub blocks_evidence : (ℕ → Bool) → ℕ → Option Block → List Block → List PreservedRange
  unfolding gap_before_evidence
  blocks_evidence skip index previous [] = []
  blocks_evidence skip index previous (block ∷ blocks) =
      gap_before_evidence index previous block
      ++ ((if skip index then [] else block_evidence block ∷ [])
          ++ blocks_evidence skip (index + 1) (some block) blocks)

  unfoldable pub identity_preserved_ranges : List PreservedRange
  unfolding bom_evidence leading_evidence blocks_evidence trailing_evidence
  identity_preserved_ranges =
      bom_evidence
      ++ (leading_evidence
          ++ (blocks_evidence (λ index. false) 0 none d.blocks ++ trailing_evidence))

  unfoldable pub byte_identity_result : SerializeResult
  unfolding identity_preserved_ranges
  byte_identity_result = serialized (record {
    output_bytes = d.original_bytes;
    output_sha256 = d.envelope.source_sha256;
    document = d;
    preserved = identity_preserved_ranges;
  })
