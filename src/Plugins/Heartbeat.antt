-- ===== src/Plugins/Heartbeat.antt =====
-- `ExperimentalRuntimeHeartbeatLease` and `ExperimentalRuntimeHeartbeatRateLimiter` of
-- src/main/plugins/experimental-runtime-ledger.ts. Times are whole milliseconds from an origin that
-- none of them lies before; `none` is a number that is not finite.
pub mod Rate
use noto.Common.{
  ℕ, ◌+◌, ◌-◌, ◌*◌, ◌/◌, min, Bool, true, false, ◌||◌, Option, none, some, List, [], ◌∷◌, ltb,
  nat_beq, if◌then◌else◌, nat_eq, list_eq,
}

abbrev pub Millis : Type 0
Millis = Option ℕ

pub record Lease : Type 0 where
  pub grace_milliseconds : ℕ
  pub last_heartbeat : ℕ

-- The constructor; `none` is the error that it throws.
unfoldable pub new_lease : Millis → Millis → Option Lease
new_lease (some grace) (some now) =
    if nat_beq grace 0
    then none
    else some (record { grace_milliseconds = grace; last_heartbeat = now })
new_lease _ _ = none

-- `none` is the error that `heartbeat` throws; the lease is then as it was.
unfoldable pub heartbeat : Lease → Millis → Option Lease
heartbeat l none = none
heartbeat l (some now) =
    if ltb now l.last_heartbeat then none else some (record l { last_heartbeat = now })

-- `now - last > grace`, where the difference may be negative
unfoldable pub expired : Lease → ℕ → Bool
expired l now = ltb (l.last_heartbeat + l.grace_milliseconds) now

pub record Limiter : Type 0 where
  pub capacity : ℕ
  pub refill_milliseconds : ℕ
  pub tokens : ℕ
  pub last_refill : ℕ

unfoldable pub new_limiter : ℕ → Millis → Millis → Option Limiter
new_limiter capacity (some refill) (some now) =
    if ltb capacity 1 || (ltb 32 capacity || ltb refill 250)
    then none
    else some (record {
      capacity = capacity;
      refill_milliseconds = refill;
      tokens = capacity;
      last_refill = now;
    })
new_limiter capacity _ _ = none

-- the refill of `accept`, for a time that is not before the last one
pub refilled : Limiter → ℕ → Limiter
refilled l now =
    let refill = (now - l.last_refill) / l.refill_milliseconds in
    if ltb 0 refill
    then record l {
      tokens = min l.capacity (l.tokens + refill);
      last_refill = l.last_refill + refill * l.refill_milliseconds;
    }
    else l

pub take_token : Limiter → Limiter × Bool
take_token l = if ltb l.tokens 1 then (l, false) else (record l { tokens = l.tokens - 1 }, true)

unfoldable pub accept : Limiter → Millis → Limiter × Bool
unfolding refilled take_token
accept l none = (l, false)
accept l (some now) = if ltb now l.last_refill then (l, false) else take_token (refilled l now)

-- The heartbeats at a list of times: how many are accepted, and the limiter after them.
unfoldable pub accept_all : Limiter → List Millis → Limiter × ℕ
accept_all l [] = (l, 0)
accept_all l (now ∷ times) =
    let (l', ok) = accept l now in
    let (l'', n) = accept_all l' times in (l'', (if ok then 1 else 0) + n)
