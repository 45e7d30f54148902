-- ===== src/Plugins/RuntimeLedger/Once.antt =====
-- Every request id is accepted at most once, and no more of them than the capacity.
use noto.Common.{
  sym, append-nil, append_assoc, ap, ◌∙◌, some, ℕ, ◌≤◌, ◌≡◌, refl, false, ◌||◌, List, [], ◌∷◌, ◌++◌,
  arith, ◌==◌, nat_eq, list_beq_iff, list_eq, length, length-append, Text,
}
use noto.Plugins.RuntimeLedger.{Consumed, accepted, Ledger, has, new_ledger, consume, consume_all}

-- The ids that were accepted, in order.
abbrev pub accepted_ids : List Text → List Consumed → List Text
accepted_ids (id ∷ ids) (accepted ∷ rs) = id ∷ accepted_ids ids rs
accepted_ids (id ∷ ids) (_ ∷ rs) = accepted_ids ids rs
accepted_ids _ _ = []

abbrev pub IsDistinct : List Text → Type 0
IsDistinct [] = Unit
IsDistinct (x ∷ xs) = (has xs x ≡ false) × IsDistinct xs

has-append : (xs : List Text) (y id : Text) → has (xs ++ y ∷ []) id ≡ (has xs id || y == id)
unfolding has
has-append [] y id = ground arith
has-append (x ∷ xs) y id = ground (arith, has-append xs y id)

IsDistinct-append :
    (xs : List Text) (y : Text) → IsDistinct xs → has xs y ≡ false → IsDistinct (xs ++ y ∷ [])
unfolding has
IsDistinct-append [] y d h = (refl, tt)
IsDistinct-append (x ∷ xs) y (new, d) h = (
  ground (arith, has-append xs y x, list_beq_iff x y, list_beq_iff y x),
  IsDistinct-append xs y d (ground arith),
)

pub record IsValid (l : Ledger) : Type 0 where
  pub room : length l.request_ids ≤ l.capacity
  pub distinct : IsDistinct l.request_ids

consume-IsValid : (l : Ledger) (id : Text) → IsValid l → IsValid (consume l id).0
unfolding consume
consume-IsValid l id v =
    ground (arith, length-append l.request_ids (id ∷ []), IsDistinct-append l.request_ids id)

consume-ids :
    (l : Ledger) (id : Text)
    → ((consume l id).0.request_ids
        ≡ l.request_ids ++ accepted_ids (id ∷ []) ((consume l id).1 ∷ []))
      × ((consume l id).0.capacity ≡ l.capacity)
unfolding consume
consume-ids l id = ground (arith, append-nil l.request_ids)

accepted_ids-cons :
    (id : Text) (ids : List Text) (r : Consumed) (rs : List Consumed)
    → accepted_ids (id ∷ []) (r ∷ []) ++ accepted_ids ids rs ≡ accepted_ids (id ∷ ids) (r ∷ rs)
accepted_ids-cons id ids accepted rs = refl
accepted_ids-cons id ids _ rs = refl

-- What the requests add to the ledger is what was accepted; the capacity stays.
consume_all-ids :
    (l : Ledger) (ids : List Text)
    → ((consume_all l ids).0.request_ids ≡ l.request_ids ++ accepted_ids ids (consume_all l ids).1)
      × ((consume_all l ids).0.capacity ≡ l.capacity)
unfolding consume_all
consume_all-ids l [] = (sym (append-nil l.request_ids), refl)
consume_all-ids l (id ∷ ids) =
    let (l', r) = consume l id in
    let (one, same) = consume-ids l id in
    let (more, still) = consume_all-ids l' ids in
    (
      more
          ∙ ap (λ (v : List Text). v ++ accepted_ids ids (consume_all l' ids).1) one
          ∙ append_assoc l.request_ids (accepted_ids (id ∷ []) (r ∷ []))
              (accepted_ids ids (consume_all l' ids).1)
          ∙ ap (λ (v : List Text). l.request_ids ++ v)
              (accepted_ids-cons id ids r (consume_all l' ids).1),
      still ∙ same,
    )

consume_all-IsValid : (l : Ledger) (ids : List Text) → IsValid l → IsValid (consume_all l ids).0
unfolding consume_all
consume_all-IsValid l [] v = v
consume_all-IsValid l (id ∷ ids) v =
    consume_all-IsValid (consume l id).0 ids (consume-IsValid l id v)

-- From a new ledger, whatever the requests and their order, no id is accepted twice, at most as
-- many are accepted as the capacity that was asked for, and the ledger holds just those.
pub consume_all_once :
    (capacity : ℕ) (l : Ledger) (ids : List Text)
    → new_ledger capacity ≡ some l
    → IsDistinct (accepted_ids ids (consume_all l ids).1)
      × (length (accepted_ids ids (consume_all l ids).1) ≤ capacity)
      × ((consume_all l ids).0.request_ids ≡ accepted_ids ids (consume_all l ids).1)
unfolding new_ledger
consume_all_once capacity l ids h =
    let empty : l.request_ids ≡ [] = ground arith in
    let cap : l.capacity ≡ capacity = ground arith in
    let v =
      consume_all-IsValid l ids
        (record { room = rw (empty, cap) (omega arith); distinct = rw empty tt }) in
    let (ids_are, same) = consume_all-ids l ids in
    let is : (consume_all l ids).0.request_ids ≡ accepted_ids ids (consume_all l ids).1 =
      ids_are ∙ ap (λ (v : List Text). v ++ accepted_ids ids (consume_all l ids).1) empty in
    (rw (← is) v.distinct, omega (arith, v.room, same, cap, ap length is), is)
