-- ===== src/Revision/Patch.antt =====
-- `applyRevisionPatch` of revision-patch.ts. The change of the offsets is what the splices before a
-- block have added and what they have removed, since it may be negative.
pub mod Kept
use noto.Common.{
  ℕ, zero, suc, ◌+◌, ◌-◌, Bool, true, false, not, ◌&&◌, ◌||◌, Option, none, some, List, [], ◌∷◌,
  ◌++◌, ltb, leb, if◌then◌else◌, ◌==◌, nat_eq, list_eq, length, get_elem?, drop, slice, Text, last?,
}
use noto.Contracts.{
  Bom, utf8, no_bom, Span, BlockOrigin, DocumentWire, TextSplice, PatchEntry, moved, patched,
  RevisionPatch, markdown_version,
}
use noto.Revision.BlockId.{block_id_at}

-- The text: the base between the splices, and each splice's text.
unfoldable pub splice_text : Text → ℕ → List TextSplice → Option Text
splice_text base cursor [] = some (drop cursor base)
splice_text base cursor (s ∷ splices) =
    let rest = splice_text base s.end splices in
    if ltb s.start cursor || (ltb s.end s.start || ltb (length base) s.end)
    then none
    else elim rest [
      | none ↦ none
      | some text ↦ some (slice cursor s.start base ++ (s.text ++ text))
    ]

-- Where the loop over the blocks stands among the splices.
pub record Splicing : Type 0 where
  pub rest : List TextSplice
  pub plus : ℕ
  pub minus : ℕ

-- The splices that end before an offset are done with.
unfoldable pub advance : ℕ → List TextSplice → ℕ → ℕ → Splicing
advance start [] plus minus = record { rest = []; plus = plus; minus = minus }
advance start (s ∷ splices) plus minus =
    let further = advance start splices (plus + length s.text) (minus + (s.end - s.start)) in
    if leb s.end start then further else record { rest = s ∷ splices; plus = plus; minus = minus }

-- No splice that is left begins before an offset.
abbrev pub is_clear : ℕ → List TextSplice → Bool
is_clear end [] = true
is_clear end (s ∷ splices) = leb end s.start

-- An offset that the source moves below 0, for splices that overlap, is 0 here.
abbrev pub shifted : Splicing → ℕ → ℕ
shifted s offset = offset + s.plus - s.minus

pub record Applying : Type 0 where
  pub at : Splicing
  pub last_end : ℕ
  pub origins : List BlockOrigin
  pub spans : List Span

-- One block of a kept run. A base with fewer spans than origins, at which the code throws, gives
-- nothing.
pub keep_block : DocumentWire → Applying → ℕ → Option Applying
unfolding advance block_id_at
keep_block base s ordinal = elim (get_elem? base.origins ordinal) [
  | none ↦ none
  | some origin ↦ elim (get_elem? base.spans ordinal) [
    | none ↦ none
    | some span ↦
        let now = advance span.start s.at.rest s.at.plus s.at.minus in
        if not (is_clear span.end now.rest)
        then none
        else elim (block_id_at origin.block_id (length s.origins)) [
          | none ↦ none
          | some id ↦ some (record s {
            at = now;
            origins =
                s.origins
                ++ (record {
                  block_id = id;
                  ordinal = length s.origins;
                  kind = origin.kind;
                  semantic_key = origin.semantic_key;
                })
                  ∷ [];
            spans =
                s.spans
                ++ (record { start = shifted now span.start; end = shifted now span.end }) ∷ [];
          })
        ]
  ]
]

-- The loop over a kept run, `count` blocks from `ordinal` on.
pub keep_run : DocumentWire → ℕ → ℕ → Applying → Option Applying
unfolding keep_block
keep_run base zero ordinal s = some s
keep_run base (suc count) ordinal s = elim (keep_block base s ordinal) [
  | none ↦ none
  | some s' ↦ keep_run base count (ordinal + 1) s'
]

-- `base.origins[keep]!.blockId !== firstBlockId`
pub starts_with : DocumentWire → ℕ → Text → Bool
starts_with base ordinal id = elim (get_elem? base.origins ordinal) [
  | none ↦ false
  | some origin ↦ origin.block_id == id
]

pub apply_entry : DocumentWire → Applying → PatchEntry → Option Applying
unfolding keep_run starts_with
apply_entry base s (moved k) =
    if ltb k.count 1
      || (ltb (length base.origins) (k.keep + k.count)
          || not (starts_with base k.keep k.first_block_id))
    then none
    else keep_run base k.count k.keep s
apply_entry base s (patched p) =
    if not (p.origin.ordinal == length s.origins)
    then none
    else some (record s {
      origins = s.origins ++ p.origin ∷ [];
      spans = s.spans ++ (record { start = p.start; end = p.end }) ∷ [];
    })

-- The check of the last span, after each entry.
pub check_last : ℕ → Applying → Option Applying
check_last text_length s = elim (last? s.spans) [
  | none ↦ none
  | some last ↦
      if ltb last.start s.last_end || (ltb last.end last.start || ltb text_length last.end)
      then none
      else some (record s { last_end = last.end })
]

pub apply_entries : DocumentWire → ℕ → List PatchEntry → Applying → Option Applying
unfolding apply_entry check_last
apply_entries base text_length [] s = some s
apply_entries base text_length (entry ∷ entries) s = elim (apply_entry base s entry) [
  | none ↦ none
  | some s' ↦ elim (check_last text_length s') [
    | none ↦ none
    | some s'' ↦ apply_entries base text_length entries s''
  ]
]

unfoldable pub apply_revision_patch : DocumentWire → RevisionPatch → Option DocumentWire
unfolding splice_text apply_entries
apply_revision_patch base patch =
    if not (patch.base_revision_id == base.revision_id)
    then none
    else elim (splice_text base.text 0 patch.splices) [
      | none ↦ none
      | some text ↦
          elim (apply_entries base (length text) patch.blocks (record {
            at = record { rest = patch.splices; plus = 0; minus = 0 };
            last_end = 0;
            origins = [];
            spans = [];
          })) [
            | none ↦ none
            | some s ↦ some (record {
              version = markdown_version;
              document_id = base.document_id;
              revision_id = patch.revision_id;
              envelope = patch.envelope;
              text = text;
              origins = s.origins;
              spans = s.spans;
            })
          ]
    ]

-- `utf8Length`: the bytes of a text, without encoding it
unfoldable pub utf8_length : Text → ℕ
utf8_length [] = 0
utf8_length (c ∷ []) = if ltb c 0x80 then 1 else if ltb c 0x800 then 2 else 3
utf8_length (c ∷ d ∷ t) =
    let pair = utf8_length t in
    let rest = utf8_length (d ∷ t) in
    if ltb c 0x80
    then 1 + rest
    else if ltb c 0x800
    then 2 + rest
    else if leb 0xd800 c && leb c 0xdbff && (leb 0xdc00 d && leb d 0xdfff)
    then 4 + pair
    else 3 + rest

pub splices_added : List TextSplice → ℕ
unfolding utf8_length
splices_added [] = 0
splices_added (s ∷ splices) = utf8_length s.text + splices_added splices

pub splices_removed : Text → List TextSplice → ℕ
unfolding utf8_length
splices_removed base [] = 0
splices_removed base (s ∷ splices) =
    utf8_length (slice s.start s.end base) + splices_removed base splices

abbrev pub bom_beq : Bom → Bom → Bool
bom_beq utf8 utf8 = true
bom_beq no_bom no_bom = true
bom_beq _ _ = false

-- The change of the length may be negative: what is removed stands on the other side.
unfoldable pub patch_keeps_byte_length : DocumentWire → RevisionPatch → Bool
unfolding splices_added splices_removed
patch_keeps_byte_length base patch =
    bom_beq patch.envelope.bom base.envelope.bom
    && base.envelope.byte_length + splices_added patch.splices
      == patch.envelope.byte_length + splices_removed base.text patch.splices
