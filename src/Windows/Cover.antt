-- ===== src/Windows/Cover.antt =====
-- Which units the windows of incremental.ts cover, and where they stand.
use noto.Common.{
  ℕ, ◌+◌, ◌-◌, ◌≤◌, ◌<◌, min, max, ◌≡◌, refl, ap, ◌∙◌, inl, inr, Bool, true, false, ◌&&◌, ◌||◌,
  Option, none, some, List, [], ◌∷◌, arith, leb, leb→le, Bool-cases, nat_eq, list_eq, length,
}
use noto.Windows.{Window, windows_from, verification_windows}

abbrev pub in_window : Window → ℕ → Bool
in_window w k = leb w.from k && leb k w.to

abbrev pub covers : List Window → ℕ → Bool
covers [] k = false
covers (w ∷ ws) k = in_window w k || covers ws k

-- Unit `k` is dirty, or beside a dirty one: said of the units from `index` on.
abbrev pub near_from : ℕ → List Bool → ℕ → Bool
near_from index [] k = false
near_from index (d ∷ dirty) k =
    (d && (leb index (k + 1) && leb k (index + 1))) || near_from (index + 1) dirty k

abbrev pub in_open : Option Window → ℕ → Bool
in_open none k = false
in_open (some w) k = in_window w k

abbrev OpensBefore : ℕ → Option Window → Type 0
OpensBefore index none = Unit
OpensBefore index (some w) = (w.from ≤ index - 1) × (w.from ≤ w.to)

-- Where the next window may start.
abbrev StartsAt : ℕ → ℕ → ℕ → Option Window → Type 0
StartsAt start total index none = start ≤ index - 1
StartsAt start total index (some w) = (start ≤ w.from) × (w.to < total)

-- The window of one dirty unit, and of a run that it joins.
new_window :
    (total index k : ℕ)
    → k < total
    → in_window (record { from = index - 1; to = min (total - 1) (index + 1) }) k
      ≡ (leb index (k + 1) && leb k (index + 1))
new_window total index k h = ground arith

joined_window :
    (a b c d k : ℕ)
    → a ≤ c
    → c ≤ b + 1
    → in_window (record { from = a; to = max b d }) k
      ≡ (in_window (record { from = a; to = b }) k || in_window (record { from = c; to = d }) k)
joined_window a b c d k h l = ground arith

or_assoc : (a b c : Bool) → ((a || b) || c) ≡ (a || (b || c))
or_assoc a b c = ground arith

windows_from-covers :
    (total index : ℕ) (w : Option Window) (dirty : List Bool) (k : ℕ)
    → OpensBefore index w
    → index + length dirty ≡ total
    → k < total
    → covers (windows_from total index w dirty) k ≡ (in_open w k || near_from index dirty k)
unfolding windows_from
windows_from-covers total index none [] k o e h = refl
windows_from-covers total index (some w) [] k o e h = ground arith
windows_from-covers total index none (false ∷ dirty) k o e h =
    windows_from-covers total (index + 1) none dirty k tt (omega arith) h
windows_from-covers total index (some w) (false ∷ dirty) k o e h =
    windows_from-covers total (index + 1) (some w) dirty k (omega arith) (omega arith) h
windows_from-covers total index none (true ∷ dirty) k o e h =
    windows_from-covers total (index + 1) _ dirty k (omega arith) (omega arith) h
    ∙ ap (λ (b : Bool). b || near_from (index + 1) dirty k) (new_window total index k h)
windows_from-covers total index (some w) (true ∷ dirty) k o e h =
    elim (Bool-cases (leb (index - 1) (w.to + 1))) [
      | inl near ↦
          rw (near, windows_from)
            (windows_from-covers total (index + 1) _ dirty k (omega arith) (omega arith) h
              ∙ ap (λ (b : Bool). b || near_from (index + 1) dirty k)
                  (joined_window w.from w.to (index - 1) (min (total - 1) (index + 1)) k o.0
                      (leb→le (index - 1) (w.to + 1) near)
                    ∙ ap (λ (b : Bool). in_window w k || b) (new_window total index k h))
              ∙ or_assoc (in_window w k) _ (near_from (index + 1) dirty k))
      | inr far ↦
          rw (far, windows_from)
            (ap (λ (b : Bool). in_window w k || b)
              (windows_from-covers total (index + 1) _ dirty k (omega arith) (omega arith) h
                ∙ ap (λ (b : Bool). b || near_from (index + 1) dirty k)
                    (new_window total index k h)))
    ]

-- A unit is in some window exactly when it, the unit before it or the unit after it was changed.
pub verification_windows-covers :
    (dirty : List Bool) (k : ℕ)
    → k < length dirty
    → covers (verification_windows dirty) k ≡ near_from 0 dirty k
unfolding verification_windows
verification_windows-covers dirty k h =
    windows_from-covers (length dirty) 0 none dirty k tt (omega arith) h

-- Windows in order with at least one unit between each and the next, from `start` up to `total`.
abbrev pub IsApart : ℕ → ℕ → List Window → Type 0
IsApart start total [] = Unit
IsApart start total (w ∷ ws) =
    (start ≤ w.from) × (w.from ≤ w.to) × (w.to < total) × IsApart (w.to + 2) total ws

windows_from-IsApart :
    (total index start : ℕ) (w : Option Window) (dirty : List Bool)
    → OpensBefore index w
    → index + length dirty ≡ total
    → StartsAt start total index w
    → IsApart start total (windows_from total index w dirty)
unfolding windows_from
windows_from-IsApart total index start none [] o e s = tt
windows_from-IsApart total index start (some w) [] o e s = omega arith
windows_from-IsApart total index start none (false ∷ dirty) o e s =
    windows_from-IsApart total (index + 1) start none dirty tt (omega arith) (omega arith)
windows_from-IsApart total index start (some w) (false ∷ dirty) o e s =
    windows_from-IsApart total (index + 1) start (some w) dirty (omega arith) (omega arith) s
windows_from-IsApart total index start none (true ∷ dirty) o e s =
    windows_from-IsApart total (index + 1) start _ dirty (omega arith) (omega arith) (omega arith)
windows_from-IsApart total index start (some w) (true ∷ dirty) o e s =
    elim (Bool-cases (leb (index - 1) (w.to + 1))) [
      | inl near ↦
          rw (near, windows_from)
            (windows_from-IsApart total (index + 1) start _ dirty (omega arith) (omega arith)
              (omega arith))
      | inr far ↦
          let gap : w.to + 1 < index - 1 = ground arith in
          rw (far, windows_from)
            (
              s.0,
              o.1,
              s.1,
              windows_from-IsApart total (index + 1) (w.to + 2) _ dirty (omega arith) (omega arith)
                  (omega arith),
            )
    ]

-- The windows stand in order inside the document, and between one and the next there is at least
-- one unit that is in neither, so no unit is parsed twice.
pub verification_windows-IsApart :
    (dirty : List Bool) → IsApart 0 (length dirty) (verification_windows dirty)
unfolding verification_windows
verification_windows-IsApart dirty =
    windows_from-IsApart (length dirty) 0 0 none dirty tt (omega arith) (omega arith)
