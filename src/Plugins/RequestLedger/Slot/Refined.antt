-- ===== src/Plugins/RequestLedger/Slot/Refined.antt =====
-- The ledger does to the slot what each command allows.
use noto.Common.{
  arith, ◌==◌, nat_eq, list_eq, length, ◌⊎◌, Text, if◌then◌else◌, ◌≡◌, Bool-cases, ◌&&◌, inl, inr,
  ◌∙◌, sym, ap, refl, ℕ, true, false, is_some, none, some, Option, List, [], ◌∷◌, ◌++◌, Bool,
  bool_eq,
}
use noto.Common.Maps.{lookup, remove, insert}
use noto.Plugins.RequestLedger.{
  Identity, Pending, TerminalState, completed, failed, cancelled, timed_out, BeginError, Ledger,
  begin, settle, reject, cancel, cancel_grant, fail_generation, cancel_generation, time_out,
  same_generation, finish, finish_all, resolve,
}
use noto.Plugins.RequestLedger.Settled.{
  Holds, idle, busy, HoldsOne, Reach, Reach-IsValid, lookup_one, remove_one, lookup_nil,
}
use noto.Plugins.RequestLedger.Slot.{
  Slot, first, Command, beginning, settling, rejecting, cancelling, revoking, failing, stopping,
  expiring, view, end_if, act, Allows, after_begin,
}

lookup-first :
    (id : Text) (p : Pending) (key : Text)
    → lookup id ((key, p) ∷ []) ≡ (if key == id then some p else none)
unfolding lookup
lookup-first id p key = refl

module _ {T : Type 0} (picks : Pending → Bool) (state : TerminalState) (value : Option T)
    (error : Option Text) where
  end_if-idle : (s : Slot T) → s.pending ≡ none → end_if picks state value error s ≡ s
  unfolding end_if
  end_if-idle s is = simp (is, end_if)

  end_if-left :
      (s : Slot T) (p : Pending)
      → s.pending ≡ some p
      → picks p ≡ false
      → end_if picks state value error s ≡ s
  unfolding end_if
  end_if-left s p is left = simp (is, end_if, left)

  answered : Slot T → Pending → Slot T
  answered s p = record {
    pending = none;
    ended = s.ended ++ (record { pending = p; state = state; value = value; error = error }) ∷ [];
  }

  end_if-picked :
      (s : Slot T) (p : Pending)
      → s.pending ≡ some p
      → picks p ≡ true
      → end_if picks state value error s ≡ answered s p
  unfolding end_if answered
  end_if-picked s p is picked = rw (is, end_if, picked) refl

  view-finish :
      (l : Ledger T) (p : Pending)
      → HoldsOne l p
      → view (finish l p state value error) ≡ answered (view l) p
  unfolding finish answered
  view-finish l p (c, r) =
      let there : is_some (lookup p.correlation_id l.by_correlation) ≡ true =
        rw (c, lookup_one p.correlation_id p) in
      let gone : remove p.correlation_id l.by_correlation ≡ [] =
        rw (c) (remove_one p.correlation_id p) in
      rw (there, finish)
        (ap
          (λ (entries : List (Text × Pending)). record {
            pending = first entries;
            ended =
                l.settled
                ++ (record { pending = p; state = state; value = value; error = error }) ∷ [];
          })
          gone)

  view-left :
      (l : Ledger T) (p : Pending)
      → HoldsOne l p
      → picks p ≡ false
      → view l ≡ end_if picks state value error (view l)
  view-left l p (c, r) left = sym (end_if-left (view l) p (ap first c) left)

  view-picked :
      (l : Ledger T) (p : Pending)
      → HoldsOne l p
      → picks p ≡ true
      → view (finish l p state value error) ≡ end_if picks state value error (view l)
  view-picked l p (c, r) picked =
      view-finish l p (c, r) ∙ sym (end_if-picked (view l) p (ap first c) picked)

module _ {T : Type 0} (found : Pending → Bool) (state : TerminalState) (value : Option T)
    (error : Option Text) where
  -- A request that was looked for, if it is the one that waits.
  view-resolve :
      (l : Ledger T) (o : Option Pending) (key : Text) (registry service : ℕ)
      → Holds l
      → (l.by_correlation ≡ [] → l.by_renderer_request ≡ [] → o ≡ none)
      → ((p : Pending) → HoldsOne l p → o ≡ (if found p then some p else none))
      → view (resolve l o key registry service state value error).0
        ≡ end_if (λ p. found p && same_generation p registry service) state value error (view l)
  unfolding resolve
  view-resolve l o key registry service (idle c r) empty one =
      let none_is = empty c r in
      rw (none_is, resolve) (sym (end_if-idle _ state value error (view l) (ap first c)))
  view-resolve l o key registry service (busy p c r) empty one = elim (Bool-cases (found p)) [
    | inr other ↦
        let none_is : o ≡ none = one p (c, r) ∙ rw (other) refl in
        rw (none_is, resolve) (view-left _ state value error l p (c, r) (rw (other) refl))
    | inl this ↦
        let some_is : o ≡ some p = one p (c, r) ∙ rw (this) refl in
        elim (Bool-cases (same_generation p registry service)) [
          | inl same ↦
              rw (some_is, resolve, same)
                (view-picked _ state value error l p (c, r) (rw (this, same) refl))
          | inr other ↦
              rw (some_is, resolve, other)
                (view-left _ state value error l p (c, r) (rw (this, other) refl))
        ]
  ]

module _ {T : Type 0} (picks : Pending → Bool) (state : TerminalState) (error : Option Text) where
  -- The loop over what was pending when it began.
  view-finish_all :
      (l : Ledger T) (entries : List (Text × Pending))
      → Holds l
      → entries ≡ l.by_correlation
      → view (finish_all picks state error l entries).0 ≡ end_if picks state none error (view l)
  unfolding finish_all
  view-finish_all l entries (idle c r) is =
      let empty = is ∙ c in
      rw (empty, finish_all) (sym (end_if-idle picks state none error (view l) (ap first c)))
  view-finish_all l entries (busy p c r) is =
      let one = is ∙ c in
      elim (Bool-cases (picks p)) [
        | inl picked ↦
            rw (one, finish_all, picked) (view-picked picks state none error l p (c, r) picked)
        | inr left ↦ rw (one, finish_all, left) (view-left picks state none error l p (c, r) left)
      ]

module _ {T : Type 0} where
  by_correlation :
      (l : Ledger T) (id : Text) (p : Pending)
      → HoldsOne l p
      → lookup id l.by_correlation ≡ (if p.correlation_id == id then some p else none)
  by_correlation l id p (c, r) = rw (c) (lookup-first id p p.correlation_id)

  by_renderer :
      (l : Ledger T) (id : Text) (p : Pending)
      → HoldsOne l p
      → lookup id l.by_renderer_request
        ≡ (if p.identity.renderer_request_id == id then some p else none)
  by_renderer l id p (c, r) = rw (r) (lookup-first id p p.identity.renderer_request_id)

  begun-Allows :
      (l : Ledger T) (identity : Identity) (token : Text) (result : (Ledger T × Text) ⊎ BeginError)
      → Holds l
      → begin l identity token ≡ result
      → Allows (beginning identity token) (view l) (view (after_begin l result))
  unfolding begin insert
  begun-Allows l identity token (inr e) h is = inl refl
  begun-Allows l identity token (inl (u, id)) (busy p c r) is = absurd (ground (arith, ap length c))
  begun-Allows l identity token (inl (u, id)) (idle c r) is =
      let p : Pending = record { identity = identity; correlation_id = id } in
      let entries : u.by_correlation ≡ (id, p) ∷ [] = ground arith in
      let answers : u.settled ≡ l.settled = ground arith in
      inr (ap first c, (id, cc (entries, answers)))

  settle-Allows :
      (l : Ledger T) (id : Text) (registry service : ℕ) (value : T)
      → Holds l
      → Allows
          (settling id registry service value)
          (view l)
          (view (act (settling id registry service value) l))
  unfolding settle same_generation
  settle-Allows l id registry service value v =
      view-resolve (λ p. p.correlation_id == id) completed (some value) none l _ _ registry service
        v (λ c r. rw (c) (lookup_nil {V = Pending} id)) (λ p one. by_correlation l id p one)

  cancel-Allows :
      (l : Ledger T) (id : Text) (registry service : ℕ)
      → Holds l
      → Allows
          (cancelling id registry service)
          (view l)
          (view (act (cancelling id registry service) l))
  unfolding cancel same_generation
  cancel-Allows l id registry service v =
      view-resolve (λ p. p.identity.renderer_request_id == id) cancelled none _ l _ _ registry
        service v (λ c r. rw (r) (lookup_nil {V = Pending} id)) (λ p one. by_renderer l id p one)

  reject-Allows :
      (l : Ledger T) (id : Text) (registry service : ℕ) (error : Text)
      → Holds l
      → Allows
          (rejecting id registry service error)
          (view l)
          (view (act (rejecting id registry service error) l))
  unfolding reject same_generation
  reject-Allows l id registry service error v =
      view-resolve (λ p. p.correlation_id == id) failed none (some error) l _ _ registry service v
        (λ c r. rw (c) (lookup_nil {V = Pending} id)) (λ p one. by_correlation l id p one)

  expire-Allows :
      (l : Ledger T) (id : Text)
      → Holds l
      → Allows (expiring id) (view l) (view (act (expiring id) l))
  unfolding time_out
  expire-Allows l id (idle c r) =
      let none_is : lookup id l.by_correlation ≡ none = rw (c) (lookup_nil {V = Pending} id) in
      rw (none_is) (sym (end_if-idle _ timed_out none _ (view l) (ap first c)))
  expire-Allows l id (busy p c r) = elim (Bool-cases (p.correlation_id == id)) [
    | inl this ↦
        let some_is : lookup id l.by_correlation ≡ some p =
          by_correlation l id p (c, r) ∙ rw (this) refl in
        rw (some_is) (view-picked _ timed_out none _ l p (c, r) this)
    | inr other ↦
        let none_is : lookup id l.by_correlation ≡ none =
          by_correlation l id p (c, r) ∙ rw (other) refl in
        rw (none_is) (view-left _ timed_out none _ l p (c, r) other)
  ]

  -- However the ledger was reached, each of its operations does to the slot what the promise allows:
  -- a request is taken only while none waits; an answer, an error, a cancellation, a revoked grant, a
  -- generation that fails or stops, and a timer each end the waiting request, with their own state,
  -- value and error, exactly if it is the one that they name, and do nothing if it is not.
  pub act-Allows :
      (l : Ledger T) (command : Command T)
      → Reach l
      → Allows command (view l) (view (act command l))
  unfolding cancel_grant fail_generation cancel_generation same_generation
  act-Allows l (beginning identity token) reached =
      begun-Allows l identity token _ (Reach-IsValid reached).holds refl
  act-Allows l (settling id registry service value) reached =
      settle-Allows l id registry service value (Reach-IsValid reached).holds
  act-Allows l (rejecting id registry service error) reached =
      reject-Allows l id registry service error (Reach-IsValid reached).holds
  act-Allows l (cancelling id registry service) reached =
      cancel-Allows l id registry service (Reach-IsValid reached).holds
  act-Allows l (revoking grant registry service) reached =
      view-finish_all _ cancelled _ l _ (Reach-IsValid reached).holds refl
  act-Allows l (failing registry service error) reached =
      view-finish_all _ failed _ l _ (Reach-IsValid reached).holds refl
  act-Allows l (stopping registry service) reached =
      view-finish_all _ cancelled _ l _ (Reach-IsValid reached).holds refl
  act-Allows l (expiring id) reached = expire-Allows l id (Reach-IsValid reached).holds
