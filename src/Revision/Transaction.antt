-- ===== src/Revision/Transaction.antt =====
-- `compactTransaction` and `expandTransaction` of revision-patch.ts. The loops are folds over the
-- units; the run that the source keeps open is the last item of its list, here a field of its own.
pub mod Expansion
pub mod RoundTrip
use mathlib.Core.List.{foldl}
use noto.Common.{
  Text, ℕ, ◌+◌, Option, none, some, List, [], ◌∷◌, ◌++◌, map, ltb, if◌then◌else◌, ◌==◌, nat_eq,
  get_elem?, length, slice,
}
use noto.Contracts.{
  BlockOrigin, Block, Document, DocumentWire, EditUnit, KeptRun, WireUnit, plain, kept, blocks,
  source, Transaction, TransactionWire, same_origin,
}

abbrev pub max_transaction_units : ℕ
max_transaction_units = 100_000

pub record Compacting : Type 0 where
  pub units : List WireUnit
  pub run : Option KeptRun

abbrev pub run_units : Option KeptRun → List WireUnit
run_units none = []
run_units (some r) = kept r ∷ []

abbrev pub compacted : Compacting → List WireUnit
compacted s = s.units ++ run_units s.run

-- the ordinal of a unit that is the base's own block, unchanged; the arguments are the unit's
-- markdown and its origin
pub kept_ordinal : List BlockOrigin → Option Text → Option BlockOrigin → Option ℕ
kept_ordinal origins (some markdown) _ = none
kept_ordinal origins none none = none
kept_ordinal origins none (some origin) = elim (get_elem? origins origin.ordinal) [
  | none ↦ none
  | some base ↦ if same_origin origin base then some origin.ordinal else none
]

pub extend_run : Compacting → ℕ → Compacting
extend_run s ordinal = elim s.run [
  | none ↦ record { units = s.units; run = some (record { keep = ordinal; count = 1 }) }
  | some r ↦
      if r.keep + r.count == ordinal
      then record s { run = some (record r { count = r.count + 1 }) }
      else record { units = compacted s; run = some (record { keep = ordinal; count = 1 }) }
]

pub compact_step : List BlockOrigin → Compacting → EditUnit → Compacting
unfolding kept_ordinal extend_run
compact_step origins s u = elim (kept_ordinal origins u.markdown u.origin) [
  | some ordinal ↦ extend_run s ordinal
  | none ↦ record { units = compacted s ++ plain u ∷ []; run = none }
]

pub compact_units : List BlockOrigin → List EditUnit → List WireUnit
unfolding compact_step
compact_units origins units =
    compacted (foldl (compact_step origins) (record { units = []; run = none }) units)

unfoldable pub compact_transaction : Transaction → DocumentWire → TransactionWire
compact_transaction (source t) base = source t
compact_transaction (blocks t) base = blocks (record {
  version = t.version;
  document_id = t.document_id;
  revision_id = t.revision_id;
  units = compact_units base.origins t.units;
  envelope = t.envelope;
})

abbrev pub kept_units : List Block → KeptRun → List EditUnit
kept_units bs r =
    map (λ b. record { origin = some b.origin; markdown = none })
      (slice r.keep (r.keep + r.count) bs)

pub expand_unit : List Block → WireUnit → Option (List EditUnit)
expand_unit bs (plain u) = some (u ∷ [])
expand_unit bs (kept r) =
    if ltb (length bs) (r.keep + r.count) then none else some (kept_units bs r)

unfoldable pub expand_from : List Block → List EditUnit → List WireUnit → Option (List EditUnit)
unfolding expand_unit
expand_from bs units [] = some units
expand_from bs units (u ∷ us) = elim (expand_unit bs u) [
  | none ↦ none
  | some more ↦
      if ltb max_transaction_units (length (units ++ more))
      then none
      else expand_from bs (units ++ more) us
]

unfoldable pub expand_transaction : TransactionWire → Document → Option Transaction
expand_transaction (source t) document = some (source t)
expand_transaction (blocks t) document = elim (expand_from document.blocks [] t.units) [
  | none ↦ none
  | some units ↦ some (
      blocks (record {
        version = t.version;
        document_id = t.document_id;
        revision_id = t.revision_id;
        units = units;
        envelope = t.envelope;
      }))
]
