-- ===== src/Plugins/RuntimeLedger.antt =====
-- `ExperimentalRuntimeRequestLedger` of src/main/plugins/experimental-runtime-ledger.ts.
-- A `Set<string>` is the list of its members, oldest first.
pub mod Once
use noto.Common.{
  ℕ, ◌+◌, Bool, false, ◌||◌, Option, none, some, List, [], ◌∷◌, ◌++◌, ltb, leb, if◌then◌else◌, ◌==◌,
  nat_eq, list_eq, length, Text,
}

pub data Consumed : Type 0 where
  accepted duplicate exhausted : Consumed

pub record Ledger : Type 0 where
  pub capacity : ℕ
  pub request_ids : List Text

-- `set.has(x)`
pub has : List Text → Text → Bool
has [] id = false
has (x ∷ xs) id = x == id || has xs id

-- The constructor; `none` is the error that it throws.
unfoldable pub new_ledger : ℕ → Option Ledger
new_ledger capacity =
    if ltb capacity 1 || ltb 4096 capacity
    then none
    else some (record { capacity = capacity; request_ids = [] })

unfoldable pub consume : Ledger → Text → Ledger × Consumed
unfolding has
consume l id =
    if has l.request_ids id
    then (l, duplicate)
    else if leb l.capacity (length l.request_ids)
    then (l, exhausted)
    else (record l { request_ids = l.request_ids ++ id ∷ [] }, accepted)

-- The answers to a list of requests, one after the other.
unfoldable pub consume_all : Ledger → List Text → Ledger × List Consumed
consume_all l [] = (l, [])
consume_all l (id ∷ ids) =
    let (l', r) = consume l id in let (l'', rs) = consume_all l' ids in (l'', r ∷ rs)
