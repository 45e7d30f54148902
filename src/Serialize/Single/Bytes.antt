-- ===== src/Serialize/Single/Bytes.antt =====
-- What an edit of one block writes: the other blocks read as before, each at its new place.
use noto.Common.{
  Option-cases, ℕ, zero, suc, ◌+◌, ◌-◌, ◌≤◌, ◌≡◌, refl, ap, ◌∙◌, inl, inr, false, some, List, [],
  ◌∷◌, ◌++◌, arith, ltb, if◌then◌else◌, ltb→lt, Bool-cases, ◌==◌, nat_eq, bool_eq, list_eq, length,
  get_elem?, take, drop, slice, length-take, Text,
}
use mathlib.Core.Option.{some-injective}
use native.Mathlib.Nat.{zero-add}
use noto.Common.Joins.{slice_of_left, slice_of_right, slice-take, slice-drop, slice_whole}
use noto.Serialize.{BlockEngine, Serialized, serialized, target_ending}
use noto.Serialize.Units.{unit_markdown}
use noto.Serialize.Windows.{effective_texts}
use noto.Serialize.Single.{
  save_single, serialize_single_block_edit, shifted_span, shifted_spans, with_body,
}
use noto.Serialize.Next.Saved.{SavesAs, fail-SavesAs, built-SavesAs, SavesAs-StandsAt, slice_same}
use noto.Serialize.Cases.{case_option}
use noto.LineEndings.{from_lf}
use noto.Windows.{ReparsedBlock}
use noto.Contracts.{EditUnit, TargetEnvelope, Block, Document}
use noto.Document.Order.{InOrder, InOrder-get_elem?, InOrder-lt}

get_elem?-shifted_spans :
    (dirty : ℕ) (block : Block) (size index i : ℕ) (bs : List Block) (current : Block)
    → get_elem? bs i ≡ some current
    → get_elem? (shifted_spans dirty block size index bs) i
      ≡ some (shifted_span dirty block size (index + i) current)
unfolding shifted_spans
get_elem?-shifted_spans dirty block size index i [] current h = absurd (cc)
get_elem?-shifted_spans dirty block size index zero (b ∷ bs) current h =
    let is : b ≡ current = some-injective b current h in
    let e : index ≡ index + 0 = omega arith in
    ap (λ (x : Block). some (shifted_span dirty block size index x)) is
    ∙ ap (λ (n : ℕ). some (shifted_span dirty block size n current)) e
get_elem?-shifted_spans dirty block size index (suc i) (b ∷ bs) current h =
    let e : index + 1 + i ≡ index + suc i = omega arith in
    get_elem?-shifted_spans dirty block size (index + 1) i bs current h
    ∙ ap (λ (n : ℕ). some (shifted_span dirty block size n current)) e

-- A text with the part between two places put aside for another.
module _ (t body : Text) (from to : ℕ) (ordered : from ≤ to) (within : to ≤ length t) where
  abbrev replaced : Text
  replaced = take from t ++ (body ++ drop to t)

  length_before : length (take from t) ≡ from
  length_before = omega (arith, length-take from t)

  replaced_before : (i j : ℕ) → i ≤ j → j ≤ from → slice i j replaced ≡ slice i j t
  replaced_before i j p q =
      slice_of_left i j (take from t) _ p (omega (arith, length_before))
      ∙ slice-take i j from t p q (omega arith)

  replaced_here : slice from (from + length body) replaced ≡ body
  replaced_here =
      slice_of_right from (from + length body) 0 (length body) (take from t) _
        (omega (arith, length_before)) (omega (arith, length_before))
      ∙ slice_of_left 0 (length body) body _ (omega arith) (omega arith)
      ∙ slice_whole body

  replaced_after :
      (i j : ℕ)
      → to ≤ i
      → i ≤ j
      → slice (i + length body - (to - from)) (j + length body - (to - from)) replaced ≡ slice i j t
  replaced_after i j p q =
      slice_of_right _ _ (length body + (i - to)) (length body + (j - to)) (take from t) _
        (omega (arith, length_before)) (omega (arith, length_before))
      ∙ slice_of_right _ _ (i - to) (j - to) body _ refl refl
      ∙ slice-drop (i - to) (j - to) to t
      ∙ (let e : to + (i - to) ≡ i = omega arith in
          let f : to + (j - to) ≡ j = omega arith in rw (e, f) refl)

module _ (d : Document) (ordered : InOrder 0 (length d.text) d.blocks) where
  -- The text that a block of the output stands for.
  shifted_span-reads :
      (dirty i : ℕ) (block current : Block) (body : Text)
      → get_elem? d.blocks dirty ≡ some block
      → get_elem? d.blocks i ≡ some current
      → (let span = shifted_span dirty block (length body) i current in
          slice span.start span.end (with_body d block body))
        ≡ (if i == dirty then body else slice current.start current.end d.text)
  unfolding shifted_span
  shifted_span-reads dirty i block current body at here =
      let (_, le, within) = InOrder-get_elem? 0 (length d.text) dirty d.blocks block ordered at in
      let (_, le', _) = InOrder-get_elem? 0 (length d.text) i d.blocks current ordered here in
      elim (Bool-cases (ltb i dirty)) [
        | inl before ↦
            let other : (i == dirty) ≡ false = ground arith in
            let before_it =
              InOrder-lt 0 (length d.text) i dirty d.blocks current block ordered
                (ltb→lt i dirty before) here at in
            rw (before, other)
              (replaced_before d.text body block.start block.end le within current.start current.end
                le' before_it)
        | inr not_before ↦ elim (Bool-cases (i == dirty)) [
          | inl same ↦
              rw (not_before, same) (replaced_here d.text body block.start block.end le within)
          | inr other ↦
              let after_it =
                InOrder-lt 0 (length d.text) dirty i d.blocks block current ordered (ground arith)
                  at here in
              rw (not_before, other)
                (replaced_after d.text body block.start block.end le within current.start
                  current.end after_it le')
        ]
      ]

module _ (e : BlockEngine) (d : Document) where
  save_single-SavesAs :
      (units : List EditUnit) (target : TargetEnvelope) (dirty : ℕ) (block : Block)
      (markdown : Text) (facts : ReparsedBlock)
      → (let body = from_lf markdown (target_ending d target) in
          SavesAs e d
            (with_body d block body)
            (shifted_spans dirty block (length body) 0 d.blocks)
            (save_single e d units target dirty block markdown facts))
  unfolding save_single
  save_single-SavesAs units target dirty block markdown facts =
      case_option (SavesAs e d _ _) (effective_texts d units) (fail-SavesAs e d _ _ _) (λ effective.
        case_option (SavesAs e d _ _) _ (fail-SavesAs e d _ _ _)
          (λ windows. built-SavesAs e d _ _ _ _))

  save_of_single_edit :
      (units : List EditUnit) (target : TargetEnvelope) (dirty : ℕ) (block : Block) (u : EditUnit)
      (markdown : Text) (s : Serialized)
      → get_elem? d.blocks dirty ≡ some block
      → get_elem? units dirty ≡ some u
      → unit_markdown d u ≡ some markdown
      → serialize_single_block_edit e d units target dirty ≡ serialized s
      → (facts : ReparsedBlock) × (save_single e d units target dirty block markdown facts
          ≡ serialized s)
  unfolding serialize_single_block_edit
  save_of_single_edit units target dirty block u markdown s at here means h =
      let h' = rw (at, here, means, serialize_single_block_edit) at h in
      elim (Option-cases (e.parse_single_block markdown)) [
        | inl x ↦ absurd (cc (rw (x) at h'))
        | inr (single, x) ↦ (_, rw (x) at h')
      ]

  -- When a save replaces one block, in a document whose blocks stand one after another, the block of
  -- the new revision at its place reads as the new markdown, in the line endings that were asked for,
  -- and the block at every other place reads as it did.
  pub serialize_single_block_edit-reads :
      (units : List EditUnit) (target : TargetEnvelope) (dirty i : ℕ) (block old new : Block)
      (u : EditUnit) (markdown : Text) (s : Serialized)
      → InOrder 0 (length d.text) d.blocks
      → get_elem? d.blocks dirty ≡ some block
      → get_elem? units dirty ≡ some u
      → unit_markdown d u ≡ some markdown
      → serialize_single_block_edit e d units target dirty ≡ serialized s
      → get_elem? d.blocks i ≡ some old
      → get_elem? s.document.blocks i ≡ some new
      → slice new.start new.end s.document.text ≡ (
          if i == dirty
          then from_lf markdown (target_ending d target)
          else slice old.start old.end d.text)
  serialize_single_block_edit-reads units target dirty i block old new u markdown s ordered at here
        means h was is =
      let (facts, h') = save_of_single_edit units target dirty block u markdown s at here means h in
      let body = from_lf markdown (target_ending d target) in
      let (place, text) =
        SavesAs-StandsAt e d _ _ _ (save_single-SavesAs units target dirty block markdown facts) s i
          new _ h' is
          (get_elem?-shifted_spans dirty block (length body) 0 i d.blocks old was
            ∙ ap (λ (n : ℕ). some (shifted_span dirty block (length body) n old)) (zero-add i)) in
      slice_same place.0 place.1 text ∙ shifted_span-reads d ordered dirty i block old body at was
