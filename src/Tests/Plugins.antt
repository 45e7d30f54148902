-- ===== src/Tests/Plugins.antt =====
-- A run of each ledger.
use noto.Common.{
  ℕ, ◌+◌, ◌-◌, ◌/◌, ◌≤◌, ◌≡◌, refl, inl, Option, none, some, List, [], ◌∷◌, arith, nat_eq, list_eq,
  length, Text, codes,
}
use noto.Plugins.RuntimeLedger.{Ledger as RuntimeLedger, new_ledger, consume_all}
use noto.Plugins.RuntimeLedger.Once.{IsDistinct, accepted_ids, consume_all_once}
use noto.Plugins.Heartbeat.{Limiter, new_limiter, accept_all}
use noto.Plugins.Heartbeat.Rate.{accept_all_bound}
use noto.Common.Maps.{lookup, insert, has}
use noto.Plugins.RequestLedger.{make_correlation_id, Ledger, Identity, begin, settle, empty_ledger}
use noto.Plugins.RequestLedger.Slot.{Allows, settling, view, act}
use noto.Plugins.RequestLedger.Slot.Refined.{act-Allows}
use noto.Plugins.RequestLedger.Settled.{IsValid, begins, settles, start, next, Reach-IsValid}

abbrev requests : List Text
requests = codes "a" ∷ codes "b" ∷ codes "a" ∷ codes "c" ∷ []

abbrev small_ledger : RuntimeLedger
small_ledger = record { capacity = 2; request_ids = [] }

new_small_ledger : new_ledger 2 ≡ some small_ledger
unfolding new_ledger
new_small_ledger = refl

consume_all_once_example :
    IsDistinct (accepted_ids requests (consume_all small_ledger requests).1)
    × (length (accepted_ids requests (consume_all small_ledger requests).1) ≤ 2)
    × ((consume_all small_ledger requests).0.request_ids
        ≡ accepted_ids requests (consume_all small_ledger requests).1)
consume_all_once_example = consume_all_once 2 small_ledger requests new_small_ledger

abbrev small_limiter : Limiter
small_limiter = record { capacity = 2; refill_milliseconds = 500; tokens = 2; last_refill = 100 }

new_small_limiter : new_limiter 2 (some 500) (some 100) ≡ some small_limiter
unfolding new_limiter
new_small_limiter = refl

abbrev times : List (Option ℕ)
times = some 100 ∷ some 101 ∷ some 102 ∷ none ∷ some 700 ∷ some 650 ∷ some 1200 ∷ []

accept_all_bound_example : (accept_all small_limiter times).1 ≤ 2 + (1200 - 100) / 500
accept_all_bound_example =
    accept_all_bound 2 500 100 1200 times small_limiter new_small_limiter (omega arith) (
      omega arith,
      (omega arith, (omega arith, (tt, (omega arith, (omega arith, (omega arith, tt)))))),
    )

abbrev read_identity : Identity
read_identity = record {
  renderer_request_id = codes "r1";
  grant_id = codes "g";
  registry_generation = 1;
  service_generation = 7;
}

abbrev service_id : Text
service_id = codes "service-7-t1"

abbrev begun_ledger : Ledger ℕ
begun_ledger = record {
  by_correlation =
      (service_id, record { identity = read_identity; correlation_id = service_id }) ∷ [];
  by_renderer_request =
      (codes "r1", record { identity = read_identity; correlation_id = service_id }) ∷ [];
  terminals = [];
  sequence = 1;
  settled = [];
}

begin_read : begin empty_ledger read_identity (codes "t") ≡ inl (begun_ledger, service_id)
unfolding begin make_correlation_id lookup insert has
begin_read = refl

Reach-IsValid_example :
    IsValid
      ((record { identity = read_identity; correlation_id = service_id }) ∷ [])
      (settle begun_ledger service_id 1 7 42).0
Reach-IsValid_example = Reach-IsValid (
    next (next start (begins read_identity (codes "t") service_id begin_read))
      (settles service_id 1 7 42))

act-Allows_example :
    Allows
      (settling service_id 1 7 42)
      (view begun_ledger)
      (view (act (settling service_id 1 7 42) begun_ledger))
act-Allows_example =
    act-Allows begun_ledger (settling service_id 1 7 42)
      (next start (begins read_identity (codes "t") service_id begin_read))
