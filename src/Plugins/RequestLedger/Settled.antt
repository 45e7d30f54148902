-- ===== src/Plugins/RequestLedger/Settled.antt =====
-- The states that the ledger of service-request-ledger.ts can reach.
use noto.Common.{
  sym, ◌∙◌, map, ◌++◌, append-nil, ◌⊎◌, inl, inr, refl, none, Bool-cases, Bool, ℕ, ◌≤◌, ◌≡◌, ap,
  true, Option, some, List, [], ◌∷◌, arith, is_some, nat_eq, list_eq, ==_refl, length,
  length-append, length-drop, Text,
}
use noto.Common.Maps.{insert, lookup, remove, add, length-add-le}
use noto.Plugins.RequestLedger.{
  timed_out, cancelled, failed, completed, time_out, cancel_generation, fail_generation,
  cancel_grant, cancel, reject, settle, empty_ledger, same_generation, Identity, finish_all, begin,
  resolve, Pending, TerminalState, Ledger, max_terminals, tombstone, finish, correlation_key,
  renderer_key,
}

length-tombstone :
    (key : Text) (ts : List Text) → length ts ≤ 4096 → length (tombstone key ts) ≤ 4096
unfolding tombstone
length-tombstone key ts h = ground (arith, length-add-le key ts, length-drop 1 (add key ts))

pub lookup_one {ℓ} : {V : Type ℓ} (k : Text) (v : V) → lookup k ((k, v) ∷ []) ≡ some v
unfolding lookup
lookup_one k v = rw (==_refl k)

pub remove_one {ℓ} : {V : Type ℓ} (k : Text) (v : V) → remove k ((k, v) ∷ []) ≡ []
unfolding remove
remove_one k v = rw (==_refl k)

lookup_found : (k id : Text) (q p : Pending) → lookup id ((k, q) ∷ []) ≡ some p → q ≡ p
unfolding lookup
lookup_found k id q p h = ground arith

pub map-append {ℓ κ} :
    {A : Type ℓ} {B : Type κ} (f : A → B) (xs ys : List A) → map f (xs ++ ys) ≡ map f xs ++ map f ys
map-append f [] ys = refl
map-append f (x ∷ xs) ys = ap (λ zs. f x ∷ zs) (map-append f xs ys)

pub lookup_nil {ℓ} : {V : Type ℓ} (k : Text) → lookup {V = V} k [] ≡ none
unfolding lookup
lookup_nil k = refl

module _ {T : Type 0} where
  -- Both maps hold the same request, or both are empty.
  pub data Holds (l : Ledger T) : Type 0 where
    idle : l.by_correlation ≡ [] → l.by_renderer_request ≡ [] → Holds l
    busy :
        (p : Pending)
        → l.by_correlation ≡ (p.correlation_id, p) ∷ []
        → l.by_renderer_request ≡ (p.identity.renderer_request_id, p) ∷ []
        → Holds l

  -- The requests that were answered, in the order of the answers, and the one that waits.
  abbrev pub answered : Ledger T → List Pending
  answered l = map (λ t. t.pending) l.settled

  abbrev pub waiting : Ledger T → List Pending
  waiting l = map (λ entry. entry.1) l.by_correlation

  pub record IsValid (begun : List Pending) (l : Ledger T) : Type 0 where
    pub holds : Holds l
    pub bounded : length l.terminals ≤ max_terminals
    pub counted : length begun ≡ l.sequence
    pub accounts : answered l ++ waiting l ≡ begun

  -- Finishing the request that is pending.
  finish_busy :
      {begun : List Pending} (l : Ledger T) (p : Pending) (state : TerminalState) (value : Option T)
      (error : Option Text)
      → IsValid begun l
      → l.by_correlation ≡ (p.correlation_id, p) ∷ []
      → l.by_renderer_request ≡ (p.identity.renderer_request_id, p) ∷ []
      → IsValid begun (finish l p state value error)
  unfolding finish
  finish_busy l p state value error v c r =
      let there : is_some (lookup p.correlation_id l.by_correlation) ≡ true =
        rw (c, lookup_one p.correlation_id p) in
      rw (there, finish)
        (record {
          holds =
              idle (rw c (remove_one p.correlation_id p))
                (rw r (remove_one p.identity.renderer_request_id p));
          bounded =
              length-tombstone (renderer_key p.identity.renderer_request_id) _
                (length-tombstone (correlation_key p.correlation_id) l.terminals v.bounded);
          counted = v.counted;
          accounts =
              let gone : remove p.correlation_id l.by_correlation ≡ [] =
                rw (c) (remove_one p.correlation_id p) in
              rw (gone, map-append, append-nil)
                (ap (λ (m : List (Text × Pending)). answered l ++ map (λ entry. entry.1) m) (sym c)
                  ∙ v.accounts);
        })

  -- The ledger holds this request and no other.
  abbrev pub HoldsOne : Ledger T → Pending → Type 0
  HoldsOne l p =
      (l.by_correlation ≡ (p.correlation_id, p) ∷ [])
      × (l.by_renderer_request ≡ (p.identity.renderer_request_id, p) ∷ [])

  HoldsOne-correlation :
      (l : Ledger T) (id : Text) (p : Pending)
      → Holds l
      → lookup id l.by_correlation ≡ some p
      → HoldsOne l p
  HoldsOne-correlation l id p (idle c r) h = absurd (cc (rw c at h, lookup_nil {V = Pending} id))
  HoldsOne-correlation l id p (busy q c r) h =
      let same = lookup_found q.correlation_id id q p (rw c at h) in rw (← same) (c, r)

  HoldsOne-renderer :
      (l : Ledger T) (id : Text) (p : Pending)
      → Holds l
      → lookup id l.by_renderer_request ≡ some p
      → HoldsOne l p
  HoldsOne-renderer l id p (idle c r) h = absurd (cc (rw r at h, lookup_nil {V = Pending} id))
  HoldsOne-renderer l id p (busy q c r) h =
      let same = lookup_found q.identity.renderer_request_id id q p (rw r at h) in
      rw (← same) (c, r)

  resolve-IsValid :
      {begun : List Pending} (l : Ledger T) (o : Option Pending) (key : Text) (registry service : ℕ)
      (state : TerminalState) (value : Option T) (error : Option Text)
      → IsValid begun l
      → ((p : Pending) → o ≡ some p → HoldsOne l p)
      → IsValid begun (resolve l o key registry service state value error).0
  unfolding resolve
  resolve-IsValid l none key registry service state value error v h = v
  resolve-IsValid l (some p) key registry service state value error v h =
      elim (Bool-cases (same_generation p registry service)) [
        | inl same ↦
            let (c, r) = h p refl in rw (same, resolve) (finish_busy l p state value error v c r)
        | inr other ↦ rw (other, resolve) v
      ]

  finish_all_of :
      {begun : List Pending} (picks : Pending → Bool) (state : TerminalState) (error : Option Text)
      (l : Ledger T) (ps : List (Text × Pending))
      → IsValid begun l
      → (ps ≡ []) ⊎ ((p : Pending) × (ps ≡ (p.correlation_id, p) ∷ []) × HoldsOne l p)
      → IsValid begun (finish_all picks state error l ps).0
  unfolding finish_all
  finish_all_of picks state error l ps v (inl e) = rw (e, finish_all) v
  finish_all_of picks state error l ps v (inr (p, e, (c, r))) = elim (Bool-cases (picks p)) [
    | inl picked ↦ rw (e, finish_all) (rw picked (finish_busy l p state none error v c r))
    | inr left ↦ rw (e, finish_all) (rw left v)
  ]

  finish_all-IsValid :
      {begun : List Pending} (picks : Pending → Bool) (state : TerminalState) (error : Option Text)
      (l : Ledger T)
      → IsValid begun l
      → IsValid begun (finish_all picks state error l l.by_correlation).0
  finish_all-IsValid picks state error l v =
      finish_all_of picks state error l l.by_correlation v (go v.holds)
    where
      go :
          Holds l
          → (l.by_correlation ≡ [])
            ⊎ ((p : Pending) × (l.by_correlation ≡ (p.correlation_id, p) ∷ []) × HoldsOne l p)
      go (idle c r) = inl c
      go (busy p c r) = inr (p, c, (c, r))

  begin-IsValid :
      {begun : List Pending} (l u : Ledger T) (identity : Identity) (token id : Text)
      → begin l identity token ≡ inl (u, id)
      → IsValid begun l
      → IsValid (begun ++ (record { identity = identity; correlation_id = id }) ∷ []) u
  unfolding begin insert
  begin-IsValid {begun = begun} l u identity token id h v = go v.holds
    where
      p : Pending
      p = record { identity = identity; correlation_id = id }

      go : Holds l → IsValid (begun ++ p ∷ []) u
      go (busy q c r) = absurd (ground (arith, ap length c))
      go (idle c r) = record {
        holds = busy p (ground arith) (ground arith);
        bounded = ground (arith, v.bounded);
        counted = ground (arith, v.counted, length-append begun (p ∷ []));
        accounts =
            let entries : u.by_correlation ≡ (id, p) ∷ [] = ground arith in
            let answers : u.settled ≡ l.settled = ground arith in
            let before : answered l ≡ begun =
              sym (append-nil (answered l))
              ∙ ap (λ (m : List (Text × Pending)). answered l ++ map (λ entry. entry.1) m) (sym c)
              ∙ v.accounts in
            rw (entries, answers) (ap (λ requests. requests ++ p ∷ []) before);
      }

-- What main does with the ledger, a step at a time; a timer runs only while its request is pending.
pub data Step {T : Type 0} : Ledger T → Ledger T → Type 0 where
  begins :
      {l u : Ledger T} (identity : Identity) (token id : Text)
      → begin l identity token ≡ inl (u, id)
      → Step l u
  settles :
      {l : Ledger T} (id : Text) (registry service : ℕ) (value : T)
      → Step l (settle l id registry service value).0
  rejects :
      {l : Ledger T} (id : Text) (registry service : ℕ) (error : Text)
      → Step l (reject l id registry service error).0
  cancels :
      {l : Ledger T} (id : Text) (registry service : ℕ) → Step l (cancel l id registry service).0
  cancels_grant :
      {l : Ledger T} (grant : Text) (registry service : ℕ)
      → Step l (cancel_grant l grant registry service).0
  fails_generation :
      {l : Ledger T} (registry service : ℕ) (error : Text)
      → Step l (fail_generation l registry service error)
  cancels_generation :
      {l : Ledger T} (registry service : ℕ) → Step l (cancel_generation l registry service)
  times_out :
      {l : Ledger T} (p : Pending)
      → lookup p.correlation_id l.by_correlation ≡ some p
      → Step l (time_out l p)

pub data Reach {T : Type 0} : Ledger T → Type 0 where
  start : Reach empty_ledger
  next : {l u : Ledger T} → Reach l → Step l u → Reach u

module _ {T : Type 0} where
  -- The requests that were begun up to here, oldest first.
  abbrev pub begun_by : {l u : Ledger T} → Step l u → List Pending → List Pending
  begun_by (begins identity token id h) before =
      before ++ (record { identity = identity; correlation_id = id }) ∷ []
  begun_by _ before = before

  abbrev pub begun : {l : Ledger T} → Reach l → List Pending
  begun start = []
  begun (next r s) = begun_by s (begun r)

  Step-IsValid :
      {before : List Pending} {l u : Ledger T} (s : Step l u)
      → IsValid before l
      → IsValid (begun_by s before) u
  unfolding settle reject cancel cancel_grant fail_generation cancel_generation time_out
  Step-IsValid (begins {l} {u} identity token id h) v = begin-IsValid l u identity token id h v
  Step-IsValid (settles {l} id registry service value) v =
      resolve-IsValid l _ (correlation_key id) registry service completed (some value) none v
        (λ p h. HoldsOne-correlation l id p v.holds h)
  Step-IsValid (rejects {l} id registry service error) v =
      resolve-IsValid l _ (correlation_key id) registry service failed none (some error) v
        (λ p h. HoldsOne-correlation l id p v.holds h)
  Step-IsValid (cancels {l} id registry service) v =
      resolve-IsValid l _ (renderer_key id) registry service cancelled none _ v
        (λ p h. HoldsOne-renderer l id p v.holds h)
  Step-IsValid (cancels_grant {l} grant registry service) v = finish_all-IsValid _ cancelled _ l v
  Step-IsValid (fails_generation {l} registry service error) v =
      finish_all-IsValid _ failed (some error) l v
  Step-IsValid (cancels_generation {l} registry service) v = finish_all-IsValid _ cancelled _ l v
  Step-IsValid (times_out {l} p h) v =
      let (c, r) = HoldsOne-correlation l p.correlation_id p v.holds h in
      finish_busy l p timed_out none _ v c r

  empty_ledger-IsValid : IsValid {T = T} [] empty_ledger
  empty_ledger-IsValid = record {
    holds = idle refl refl;
    bounded = omega arith;
    counted = refl;
    accounts = refl;
  }

  -- However the ledger was reached: at most one request is pending, the same in both maps; the
  -- memory of ended requests holds at most 4,096 keys; the sequence number counts the requests that
  -- were begun; and these, in the order in which they were begun, are the requests that were settled,
  -- in the order in which they were, and then the one that is pending: each is settled once or still
  -- pending, and no other is settled.
  pub Reach-IsValid : {l : Ledger T} (r : Reach l) → IsValid (begun r) l
  Reach-IsValid start = empty_ledger-IsValid
  Reach-IsValid (next r s) = Step-IsValid s (Reach-IsValid r)
