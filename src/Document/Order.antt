-- ===== src/Document/Order.antt =====
-- The blocks of a document stand in the text one after another.
use noto.Common.{
  ℕ, zero, suc, ◌≤◌, ◌<◌, ◌≡◌, some, List, [], ◌∷◌, arith, nat_eq, bool_eq, list_eq, get_elem?,
}
use mathlib.Core.Path.{subst}
use noto.Contracts.{Block}

-- Each block starts where the one before ended, or after, and the last ends within the text.
abbrev pub InOrder : ℕ → ℕ → List Block → Type 0
InOrder from total [] = from ≤ total
InOrder from total (b ∷ bs) = (from ≤ b.start) × (b.start ≤ b.end) × InOrder b.end total bs

pub InOrder-le : (from total : ℕ) (bs : List Block) → InOrder from total bs → from ≤ total
InOrder-le from total [] h = h
InOrder-le from total (b ∷ bs) (p, q, r) = omega (arith, InOrder-le b.end total bs r)

-- Where a block stands.
pub InOrder-get_elem? :
    (from total i : ℕ) (bs : List Block) (b : Block)
    → InOrder from total bs
    → get_elem? bs i ≡ some b
    → (from ≤ b.start) × (b.start ≤ b.end) × (b.end ≤ total)
InOrder-get_elem? from total i [] b h at = absurd (cc)
InOrder-get_elem? from total zero (c ∷ bs) b (p, q, r) at =
    let is : c ≡ b = ground (arith, at) in
    subst (λ (x : Block). (from ≤ x.start) × (x.start ≤ x.end) × (x.end ≤ total)) is
      (p, q, InOrder-le c.end total bs r)
InOrder-get_elem? from total (suc i) (c ∷ bs) b (p, q, r) at =
    let (l, m, n) = InOrder-get_elem? c.end total i bs b r at in (omega arith, m, n)

-- Of two blocks, the earlier one ends before the later one starts.
pub InOrder-lt :
    (from total i j : ℕ) (bs : List Block) (b c : Block)
    → InOrder from total bs
    → i < j
    → get_elem? bs i ≡ some b
    → get_elem? bs j ≡ some c
    → b.end ≤ c.start
InOrder-lt from total i j [] b c h lt at bt = absurd (cc)
InOrder-lt from total i zero (x ∷ bs) b c h lt at bt = absurd (omega arith)
InOrder-lt from total zero (suc j) (x ∷ bs) b c (p, q, r) lt at bt =
    let is : x ≡ b = ground (arith, at) in
    subst (λ (y : Block). y.end ≤ c.start) is (InOrder-get_elem? x.end total j bs c r bt).0
InOrder-lt from total (suc i) (suc j) (x ∷ bs) b c (p, q, r) lt at bt =
    InOrder-lt x.end total i j bs b c r (omega arith) at bt
