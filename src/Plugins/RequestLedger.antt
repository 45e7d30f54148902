-- ===== src/Plugins/RequestLedger.antt =====
-- src/main/plugins/service-request-ledger.ts: one read at a time, each settled once.
-- The random token of a request is an argument of `begin`; promises, the abort signal, the timer and
-- `onTerminal` are the list `settled` of what was reported, oldest first. An error is its message.
pub mod Settled
pub mod Slot
use noto.Common.{
  ℕ, zero, suc, ◌+◌, ◌-◌, ◌/◌, ◌%◌, ◌⊎◌, inl, inr, Bool, not, ◌&&◌, ◌||◌, Option, none, some, List,
  [], ◌∷◌, ◌++◌, ltb, leb, if◌then◌else◌, is_some, ◌==◌, nat_eq, list_eq, length, drop, Text, codes,
}
use noto.Common.Maps.{lookup, insert, remove, has, add}

pub record Identity : Type 0 where
  pub renderer_request_id : Text
  pub grant_id : Text
  pub registry_generation : ℕ
  pub service_generation : ℕ

pub record Pending : Type 0 where
  pub identity : Identity
  pub correlation_id : Text

pub data TerminalState : Type 0 where
  completed cancelled timed_out failed : TerminalState

pub data SettleResult : Type 0 where
  accepted mismatched stale terminal : SettleResult

pub data BeginError : Type 0 where
  already_pending duplicate_request : BeginError

pub record Terminal (T : Type 0) : Type 0 where
  pub pending : Pending
  pub state : TerminalState
  pub value : Option T
  pub error : Option Text

pub record Ledger (T : Type 0) : Type 0 where
  pub by_correlation : List (Text × Pending)
  pub by_renderer_request : List (Text × Pending)
  pub terminals : List Text
  pub sequence : ℕ
  pub settled : List (Terminal T)

abbrev pub max_terminals : ℕ
max_terminals = 4_096

abbrev pub correlation_key : Text → Text
correlation_key id = codes "correlation:" ++ id

abbrev pub renderer_key : Text → Text
renderer_key id = codes "renderer:" ++ id

-- `n.toString(radix)` for a radix of at most 36
pub radix_from : ℕ → ℕ → ℕ → Text → Text
radix_from radix zero n tail = tail
radix_from radix (suc fuel) n tail =
    let d = n % radix in
    let text = (if ltb d 10 then b'0' + d else b'a' + (d - 10)) ∷ tail in
    let rest = radix_from radix fuel (n / radix) text in if ltb n radix then text else rest

abbrev pub radix : ℕ → ℕ → Text
radix r n = radix_from r (suc n) n []

unfoldable pub make_correlation_id : ℕ → Text → ℕ → Text
unfolding radix_from
make_correlation_id generation token sequence =
    codes "service-" ++ (radix 10 generation ++ (codes "-" ++ (token ++ radix 36 sequence)))

pub tombstone : Text → List Text → List Text
tombstone key terminals =
    let grown = add key terminals in
    if leb (length grown) max_terminals then grown else drop 1 grown

-- `!== `on both generations
pub same_generation : Pending → ℕ → ℕ → Bool
same_generation p registry service =
    p.identity.registry_generation == registry && p.identity.service_generation == service

module _ {T : Type 0} where
  abbrev pub empty_ledger : Ledger T
  empty_ledger = record {
    by_correlation = [];
    by_renderer_request = [];
    terminals = [];
    sequence = 0;
    settled = [];
  }

  pub size : Ledger T → ℕ
  size l = length l.by_correlation

  pub finish : Ledger T → Pending → TerminalState → Option T → Option Text → Ledger T
  unfolding tombstone
  finish l p state value error =
      if not (is_some (lookup p.correlation_id l.by_correlation)) then l else record l {
        by_correlation = remove p.correlation_id l.by_correlation;
        by_renderer_request = remove p.identity.renderer_request_id l.by_renderer_request;
        terminals =
            tombstone (renderer_key p.identity.renderer_request_id)
              (tombstone (correlation_key p.correlation_id) l.terminals);
        settled =
            l.settled ++ (record { pending = p; state = state; value = value; error = error }) ∷ [];
      }

  -- `begin` gives the ledger and the correlation id, or the error that it throws.
  unfoldable pub begin : Ledger T → Identity → Text → (Ledger T × Text) ⊎ BeginError
  begin l identity token =
      if ltb 0 (length l.by_correlation)
      then inr already_pending
      else if is_some (lookup identity.renderer_request_id l.by_renderer_request)
          || has (renderer_key identity.renderer_request_id) l.terminals
      then inr duplicate_request
      else let sequence = l.sequence + 1 in
        let id = make_correlation_id identity.service_generation token sequence in
        let p : Pending = record { identity = identity; correlation_id = id } in
        inl (
          record l {
            by_correlation = insert id p l.by_correlation;
            by_renderer_request = insert identity.renderer_request_id p l.by_renderer_request;
            sequence = sequence;
          },
          id,
        )

  -- what `settle`, `reject` and `cancel` share: the pending request, the key of its tombstone
  pub resolve :
      Ledger T
      → Option Pending
      → Text
      → ℕ
      → ℕ
      → TerminalState
      → Option T
      → Option Text
      → Ledger T × SettleResult
  unfolding finish same_generation
  resolve l none key registry service state value error =
      (l, if has key l.terminals then terminal else stale)
  resolve l (some p) key registry service state value error =
      if same_generation p registry service
      then (finish l p state value error, accepted)
      else (l, mismatched)

  pub settle : Ledger T → Text → ℕ → ℕ → T → Ledger T × SettleResult
  unfolding resolve
  settle l id registry service value =
      resolve l (lookup id l.by_correlation) (correlation_key id) registry service completed
        (some value) none

  pub reject : Ledger T → Text → ℕ → ℕ → Text → Ledger T × SettleResult
  unfolding resolve
  reject l id registry service error =
      resolve l (lookup id l.by_correlation) (correlation_key id) registry service failed none
        (some error)

  pub cancel : Ledger T → Text → ℕ → ℕ → Ledger T × SettleResult
  unfolding resolve
  cancel l id registry service =
      resolve l (lookup id l.by_renderer_request) (renderer_key id) registry service cancelled none
        (some (codes "SERVICE_CANCELLED: service read cancelled"))

  -- The loops over a copy of the pending requests: those that the test picks are finished.
  pub finish_all :
      (Pending → Bool)
      → TerminalState
      → Option Text
      → Ledger T
      → List (Text × Pending)
      → Ledger T × ℕ
  unfolding finish
  finish_all picks state error l [] = (l, 0)
  finish_all picks state error l ((k, p) ∷ ps) =
      let rest =
        finish_all picks state error (if picks p then finish l p state none error else l) ps in
      (rest.0, (if picks p then 1 else 0) + rest.1)

  pub cancel_grant : Ledger T → Text → ℕ → ℕ → Ledger T × ℕ
  unfolding finish_all same_generation
  cancel_grant l grant registry service =
      finish_all (λ p. p.identity.grant_id == grant && same_generation p registry service) cancelled
        (some (codes "SERVICE_CANCELLED: grant revoked")) l l.by_correlation

  pub fail_generation : Ledger T → ℕ → ℕ → Text → Ledger T
  unfolding finish_all same_generation
  fail_generation l registry service error =
      (finish_all (λ p. same_generation p registry service) failed (some error) l
        l.by_correlation).0

  pub cancel_generation : Ledger T → ℕ → ℕ → Ledger T
  unfolding finish_all same_generation
  cancel_generation l registry service =
      (finish_all (λ p. same_generation p registry service) cancelled
        (some (codes "SERVICE_CANCELLED: service generation is stopping")) l l.by_correlation).0

  -- The timer of a request.
  pub time_out : Ledger T → Pending → Ledger T
  unfolding finish
  time_out l p = finish l p timed_out none (some (codes "TIMEOUT: service read timed out"))
