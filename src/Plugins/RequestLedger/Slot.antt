-- ===== src/Plugins/RequestLedger/Slot.antt =====
-- What the ledger promises: a slot for one request. Keys, maps and the memory of ended requests are
-- forgotten; what is left is the request that waits for an answer, and the answers that were given.
pub mod Refined
use noto.Common.{
  ℕ, ◌+◌, ◌≡◌, ◌⊎◌, inl, inr, Bool, ◌&&◌, Option, none, some, List, [], ◌∷◌, ◌++◌, if◌then◌else◌,
  ◌==◌, nat_eq, bool_eq, list_eq, Text, codes,
}
use noto.Plugins.RequestLedger.{
  lookup, Identity, Pending, Terminal, TerminalState, completed, failed, cancelled, timed_out,
  BeginError, Ledger, begin, settle, reject, cancel, cancel_grant, fail_generation,
  cancel_generation, time_out,
}

pub record Slot (T : Type 0) : Type 0 where
  pub pending : Option Pending
  pub ended : List (Terminal T)

-- The request of these generations of the registry and of the service.
abbrev pub of_generation : ℕ → ℕ → Pending → Bool
of_generation registry service p =
    p.identity.registry_generation == registry && p.identity.service_generation == service

abbrev pub first : List (Text × Pending) → Option Pending
first [] = none
first ((key, p) ∷ entries) = some p

pub data Command (T : Type 0) : Type 0 where
  beginning : Identity → Text → Command T
  settling : Text → ℕ → ℕ → T → Command T
  rejecting : Text → ℕ → ℕ → Text → Command T
  cancelling : Text → ℕ → ℕ → Command T
  revoking : Text → ℕ → ℕ → Command T
  failing : ℕ → ℕ → Text → Command T
  stopping : ℕ → ℕ → Command T
  expiring : Text → Command T

module _ {T : Type 0} where
  abbrev pub view : Ledger T → Slot T
  view l = record { pending = first l.by_correlation; ended = l.settled }

  -- The waiting request is answered, if the test picks it.
  unfoldable pub end_if :
      (Pending → Bool) → TerminalState → Option T → Option Text → Slot T → Slot T
  end_if picks state value error s = elim s.pending [
    | none ↦ s
    | some p ↦
        if picks p
        then record {
          pending = none;
          ended =
              s.ended ++ (record { pending = p; state = state; value = value; error = error }) ∷ [];
        }
        else s
  ]

  abbrev pub after_begin : Ledger T → (Ledger T × Text) ⊎ BeginError → Ledger T
  after_begin l (inl (u, id)) = u
  after_begin l (inr e) = l

  -- The timer of a request, which runs only while it is pending.
  abbrev pub after_timer : Ledger T → Option Pending → Ledger T
  after_timer l none = l
  after_timer l (some p) = time_out l p

  abbrev pub act : Command T → Ledger T → Ledger T
  act (beginning identity token) l = after_begin l (begin l identity token)
  act (settling id registry service value) l = (settle l id registry service value).0
  act (rejecting id registry service error) l = (reject l id registry service error).0
  act (cancelling id registry service) l = (cancel l id registry service).0
  act (revoking grant registry service) l = (cancel_grant l grant registry service).0
  act (failing registry service error) l = fail_generation l registry service error
  act (stopping registry service) l = cancel_generation l registry service
  act (expiring id) l = after_timer l (lookup id l.by_correlation)

  -- What a command may do to the slot: a request is taken only while none waits, and each of the
  -- others answers the waiting request if that is the one it means, and does nothing if not.
  abbrev pub Allows : Command T → Slot T → Slot T → Type 0
  Allows (beginning identity token) s t =
      (t ≡ s)
      ⊎ ((s.pending ≡ none)
          × ((id : Text) × (t ≡ record {
            pending = some (record { identity = identity; correlation_id = id });
            ended = s.ended;
          })))
  Allows (settling id registry service value) s t =
      t
      ≡ end_if (λ p. p.correlation_id == id && of_generation registry service p) completed
          (some value) none s
  Allows (rejecting id registry service error) s t =
      t
      ≡ end_if (λ p. p.correlation_id == id && of_generation registry service p) failed none
          (some error) s
  Allows (cancelling id registry service) s t =
      t
      ≡ end_if (λ p. p.identity.renderer_request_id == id && of_generation registry service p)
          cancelled none (some (codes "SERVICE_CANCELLED: service read cancelled")) s
  Allows (revoking grant registry service) s t =
      t
      ≡ end_if (λ p. p.identity.grant_id == grant && of_generation registry service p) cancelled
          none (some (codes "SERVICE_CANCELLED: grant revoked")) s
  Allows (failing registry service error) s t =
      t ≡ end_if (λ p. of_generation registry service p) failed none (some error) s
  Allows (stopping registry service) s t =
      t
      ≡ end_if (λ p. of_generation registry service p) cancelled none
          (some (codes "SERVICE_CANCELLED: service generation is stopping")) s
  Allows (expiring id) s t =
      t
      ≡ end_if (λ p. p.correlation_id == id) timed_out none
          (some (codes "TIMEOUT: service read timed out")) s
