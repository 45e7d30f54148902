-- ===== src/Plugins/Heartbeat/Rate.antt =====
-- How many heartbeats the limiter lets through.
use noto.Common.{
  ℕ, ◌+◌, ◌-◌, ◌*◌, ◌/◌, ◌≤◌, ◌≡◌, inl, inr, none, some, List, [], ◌∷◌, arith, ltb, if◌then◌else◌,
  Bool-cases, nat_eq, list_eq, All,
}
use native.Mathlib.Nat.{add-zero, add_assoc, add-mul, div-mul-le_self, le-div_iff_mul-le}
use noto.Plugins.Heartbeat.{Millis, Limiter, new_limiter, refilled, take_token, accept, accept_all}

-- A time that is a number is at most `until`.
abbrev pub AtMost : ℕ → Millis → Type 0
AtMost until none = Unit
AtMost until (some now) = now ≤ until

-- `n` were accepted since `start`, when the limiter was full; the time is at most `now`.
record Spent (start now capacity refill n : ℕ) (l : Limiter) : Type 0 where
  intervals : ℕ
  capacity_is : l.capacity ≡ capacity
  refill_is : l.refill_milliseconds ≡ refill
  refilled_at : l.last_refill ≡ start + intervals * refill
  past : l.last_refill ≤ now
  within : n + l.tokens ≤ capacity + intervals

module _ (start until capacity refill : ℕ) where
  refilled-Spent :
      (n : ℕ) (l : Limiter) (now : ℕ)
      → now ≤ until
      → l.last_refill ≤ now
      → Spent start until capacity refill n l
      → Spent start until capacity refill n (refilled l now)
  unfolding refilled
  refilled-Spent n l now in_time later s = record {
    intervals = s.intervals + (now - l.last_refill) / l.refill_milliseconds;
    capacity_is = ground arith;
    refill_is = ground arith;
    refilled_at = grown;
    past = ground (arith, div-mul-le_self (now - l.last_refill) l.refill_milliseconds);
    within = ground arith;
  }
    where
      grown :
          (refilled l now).last_refill
          ≡ start + (s.intervals + (now - l.last_refill) / l.refill_milliseconds) * refill
      grown = elim (Bool-cases (ltb 0 ((now - l.last_refill) / l.refill_milliseconds))) [
        | inl some_refill ↦
            rw (some_refill, s.refill_is)
              (omega
                (arith, s.refilled_at, add-mul s.intervals ((now - l.last_refill) / refill) refill))
        | inr no_refill ↦
            let none_yet : (now - l.last_refill) / l.refill_milliseconds ≡ 0 = ground arith in
            rw (no_refill, none_yet) (omega arith)
      ]

  take_token-Spent :
      (n : ℕ) (l : Limiter)
      → Spent start until capacity refill n l
      → Spent start until capacity refill (n + (if (take_token l).1 then 1 else 0)) (take_token l).0
  unfolding take_token
  take_token-Spent n l s = record {
    intervals = s.intervals;
    capacity_is = ground arith;
    refill_is = ground arith;
    refilled_at = ground arith;
    past = ground arith;
    within = ground arith;
  }

  -- The number accepted, with what is left.
  accept-Spent :
      (n : ℕ) (l : Limiter) (now : Millis)
      → AtMost until now
      → Spent start until capacity refill n l
      → Spent start until capacity refill (n + (if (accept l now).1 then 1 else 0)) (accept l now).0
  unfolding accept
  accept-Spent n l none h s = rw add-zero s
  accept-Spent n l (some now) h s = elim (Bool-cases (ltb now l.last_refill)) [
    | inl early ↦ rw (early, accept) (rw add-zero s)
    | inr later ↦
        rw (later, accept)
          (take_token-Spent n (refilled l now) (refilled-Spent n l now h (ground arith) s))
  ]

  accept_all-Spent :
      (n : ℕ) (l : Limiter) (times : List Millis)
      → All (AtMost until) times
      → Spent start until capacity refill n l
      → Spent start until capacity refill (n + (accept_all l times).1) (accept_all l times).0
  unfolding accept_all
  accept_all-Spent n l [] h s = rw add-zero s
  accept_all-Spent n l (now ∷ times) (p, h) s =
      rw (← add_assoc n (if (accept l now).1 then 1 else 0) (accept_all (accept l now).0 times).1) (
        accept_all-Spent (n + (if (accept l now).1 then 1 else 0)) (accept l now).0 times h
          (accept-Spent n l now p s))

-- A new limiter lets through, at whatever times up to `until` and in whatever order they come, at
-- most its capacity and one heartbeat for every whole interval since it was made.
pub accept_all_bound :
    (capacity refill start until : ℕ) (times : List Millis) (l : Limiter)
    → new_limiter capacity (some refill) (some start) ≡ some l
    → start ≤ until
    → All (AtMost until) times
    → (accept_all l times).1 ≤ capacity + (until - start) / refill
unfolding new_limiter
accept_all_bound capacity refill start until times l made h in_time =
    let s = accept_all-Spent start until capacity refill 0 l times in_time (record {
      intervals = 0;
      capacity_is = ground arith;
      refill_is = ground arith;
      refilled_at = ground arith;
      past = ground arith;
      within = ground arith;
    }) in
    let k_le : s.intervals ≤ (until - start) / refill =
      (le-div_iff_mul-le (ground arith)).1 (omega (arith, s.refilled_at, s.past)) in
    omega (arith, s.within, k_le)
