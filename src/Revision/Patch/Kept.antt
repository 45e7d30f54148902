-- ===== src/Revision/Patch/Kept.antt =====
-- Kept blocks of a patch in the new text, for applyRevisionPatch.
use noto.Common.{
  ℕ, zero, suc, ◌+◌, ◌-◌, ◌≤◌, ◌≡◌, refl, ap, ◌∙◌, inl, inr, true, ◌||◌, some, List, [], ◌∷◌, ◌++◌,
  arith, ltb, leb, leb→le, Bool-cases, Option-cases, nat_eq, list_eq, length, take, drop, slice,
  length-take, length-drop, drop-append, Text, drop-drop,
}
use noto.Contracts.{TextSplice}
use noto.Revision.Patch.{splice_text, Splicing, advance, is_clear, shifted}

-- A slice that lies within the first of two texts, or in the second.
slice-append_left :
    (i j : ℕ) (xs ys : Text) → i ≤ j → j ≤ length xs → slice i j (xs ++ ys) ≡ slice i j xs
slice-append_left i j xs ys p q =
    ap (take (j - i)) (drop-append i xs ys (omega arith))
    ∙ take-append_le (j - i) (drop i xs) ys (omega (arith, length-drop i xs))
  where
    take-append_le : (n : ℕ) (us vs : Text) → n ≤ length us → take n (us ++ vs) ≡ take n us
    take-append_le zero us vs h = refl
    take-append_le (suc n) [] vs h = absurd (omega arith)
    take-append_le (suc n) (u ∷ us) vs h = ap (λ ws. u ∷ ws) (take-append_le n us vs (omega arith))

slice-append_right :
    (i j : ℕ) (xs ys : Text) → slice (length xs + i) (length xs + j) (xs ++ ys) ≡ slice i j ys
slice-append_right i j xs ys =
    let e : length xs + j - (length xs + i) ≡ j - i = omega arith in
    rw e (ap (take (j - i)) (beyond xs))
  where
    beyond : (us : Text) → drop (length us + i) (us ++ ys) ≡ drop i ys
    beyond [] = let e : 0 + i ≡ i = omega arith in rw e
    beyond (u ∷ us) =
        let e : suc (length us) + i ≡ suc (length us + i) = omega arith in rw e (beyond us)

take-take : (n m : ℕ) (zs : Text) → n ≤ m → take n (take m zs) ≡ take n zs
take-take zero m zs h = refl
take-take (suc n) zero zs h = absurd (omega arith)
take-take (suc n) (suc m) [] h = refl
take-take (suc n) (suc m) (z ∷ zs) h = ap (λ ws. z ∷ ws) (take-take n m zs (omega arith))

take-drop-take :
    (n i m : ℕ) (zs : Text) → i + n ≤ m → take n (drop i (take m zs)) ≡ take n (drop i zs)
take-drop-take n zero m zs h = take-take n m zs (omega arith)
take-drop-take n (suc i) zero zs h = absurd (omega arith)
take-drop-take n (suc i) (suc m) [] h = refl
take-drop-take n (suc i) (suc m) (z ∷ zs) h = take-drop-take n i m zs (omega arith)

slice-slice :
    (a b i j : ℕ) (xs : Text)
    → i ≤ j
    → a + j ≤ b
    → slice i j (slice a b xs) ≡ slice (a + i) (a + j) xs
slice-slice a b i j xs l h =
    let e : a + j - (a + i) ≡ j - i = omega arith in
    take-drop-take (j - i) i (b - a) (drop a xs) (omega arith)
    ∙ ap (take (j - i)) (drop-drop a i xs)
    ∙ (rw e)

length-slice : (a b : ℕ) (xs : Text) → a ≤ b → b ≤ length xs → length (slice a b xs) ≡ b - a
length-slice a b xs p q = omega (arith, length-take (b - a) (drop a xs), length-drop a xs)

slice-drop :
    (c i j : ℕ) (xs : Text) → c ≤ i → c ≤ j → slice (i - c) (j - c) (drop c xs) ≡ slice i j xs
slice-drop c i j xs p q =
    let e : c + (i - c) ≡ i = omega arith in
    let f : j - c - (i - c) ≡ j - i = omega arith in
    let whole : drop (i - c) (drop c xs) ≡ drop i xs =
      drop-drop c (i - c) xs ∙ ap (λ n. drop n xs) e in
    rw (f, whole)

-- Where a kept stretch of the base stands in the text from a cursor on.
record Stands (base text : Text) (c start stop plus minus : ℕ) (s : Splicing) : Type 0 where
  more : ℕ
  less : ℕ
  plus_is : s.plus ≡ plus + more
  minus_is : s.minus ≡ minus + less
  in_range : less ≤ start - c
  reads : slice (start - c + more - less) (stop - c + more - less) text ≡ slice start stop base

module _ (base : Text) (start stop : ℕ) where
  advance-Stands :
      (c plus minus : ℕ) (splices : List TextSplice) (text : Text)
      → splice_text base c splices ≡ some text
      → c ≤ start
      → start ≤ stop
      → stop ≤ length base
      → is_clear stop (advance start splices plus minus).rest ≡ true
      → Stands base text c start stop plus minus (advance start splices plus minus)
  unfolding splice_text advance
  advance-Stands c plus minus [] text h l r n k =
      let is : drop c base ≡ text = ground arith in
      let e : start - c + 0 - 0 ≡ start - c = omega arith in
      let f : stop - c + 0 - 0 ≡ stop - c = omega arith in
      record {
        more = 0;
        less = 0;
        plus_is = omega arith;
        minus_is = omega arith;
        in_range = omega arith;
        reads = rw (e, f, ← is) (slice-drop c start stop base l (omega arith));
      }
  advance-Stands c plus minus (s ∷ splices) text h l r n k =
      elim (Bool-cases (ltb s.start c || (ltb s.end s.start || ltb (length base) s.end))) [
        | inl bad ↦ absurd (cc (rw (bad, splice_text) at h))
        | inr good ↦ elim (Option-cases (splice_text base s.end splices)) [
          | inl e ↦ absurd (cc (rw (good, e, splice_text) at h))
          | inr (after, e) ↦
              let is : slice c s.start base ++ (s.text ++ after) ≡ text =
                ground (arith, rw (good, e, splice_text) at h) in
              let ordered : (c ≤ s.start) × (s.start ≤ s.end) × (s.end ≤ length base) =
                (ground arith, ground arith, ground arith) in
              let first = slice c s.start base in
              let size = length-slice c s.start base ordered.0 (omega (arith, ordered)) in
              elim (Bool-cases (leb s.end start)) [
                | inl done ↦
                    let st =
                      advance-Stands s.end (plus + length s.text) (minus + (s.end - s.start))
                        splices after e (leb→le s.end start done) r n (rw (done, advance) at k) in
                    let a = start - s.end + st.more - st.less in
                    let b = stop - s.end + st.more - st.less in
                    let from : start - c + (length s.text + st.more) - (s.end - s.start + st.less)
                        ≡ length first + (length s.text + a) =
                      omega (arith, size, ordered, st.in_range, leb→le s.end start done) in
                    let to : stop - c + (length s.text + st.more) - (s.end - s.start + st.less)
                        ≡ length first + (length s.text + b) =
                      omega (arith, size, ordered, st.in_range, leb→le s.end start done, r) in
                    rw (done, advance)
                      (record {
                        more = length s.text + st.more;
                        less = s.end - s.start + st.less;
                        plus_is = omega (arith, st.plus_is);
                        minus_is = omega (arith, st.minus_is);
                        in_range = omega (arith, st.in_range, ordered, leb→le s.end start done);
                        reads =
                            rw (from, to, ← is)
                              (slice-append_right (length s.text + a) (length s.text + b) first
                                  (s.text ++ after)
                                ∙ slice-append_right a b s.text after
                                ∙ st.reads);
                      })
                | inr next ↦
                    let clear : stop ≤ s.start = leb→le stop s.start (rw (next, advance) at k) in
                    let from : start - c + 0 - 0 ≡ start - c = omega arith in
                    let to : stop - c + 0 - 0 ≡ stop - c = omega arith in
                    let from' : c + (start - c) ≡ start = omega arith in
                    let to' : c + (stop - c) ≡ stop = omega arith in
                    rw (next, advance)
                      (record {
                        more = 0;
                        less = 0;
                        plus_is = omega arith;
                        minus_is = omega arith;
                        in_range = omega arith;
                        reads =
                            rw (from, to, ← is)
                              (slice-append_left (start - c) (stop - c) first (s.text ++ after)
                                  (omega arith) (omega (arith, size))
                                ∙ slice-slice c s.start (start - c) (stop - c) base (omega arith)
                                    (omega arith)
                                ∙ (rw (from', to')));
                      })
              ]
        ]
      ]

-- A block of the base that no splice touches reads the same in the patched text, at the offsets to
-- which the loop moves it: those of the base, with what the splices before it added and removed.
pub advance-reads :
    (base text : Text) (splices : List TextSplice) (start stop : ℕ)
    → splice_text base 0 splices ≡ some text
    → start ≤ stop
    → stop ≤ length base
    → is_clear stop (advance start splices 0 0).rest ≡ true
    → slice
        (shifted (advance start splices 0 0) start)
        (shifted (advance start splices 0 0) stop)
        text
      ≡ slice start stop base
advance-reads base text splices start stop h l n k =
    let st = advance-Stands base start stop 0 0 0 splices text h (omega arith) l n k in
    let from : shifted (advance start splices 0 0) start ≡ start - 0 + st.more - st.less =
      omega (arith, st.plus_is, st.minus_is) in
    let to : shifted (advance start splices 0 0) stop ≡ stop - 0 + st.more - st.less =
      omega (arith, st.plus_is, st.minus_is) in
    rw (from, to) st.reads

-- Going on from where an earlier block stood is the same as starting again: a later block of the
-- base is moved as though it were the first.
pub advance-advance :
    (earlier start : ℕ) (splices : List TextSplice) (plus minus : ℕ)
    → earlier ≤ start
    → advance start
        (advance earlier splices plus minus).rest
        (advance earlier splices plus minus).plus
        (advance earlier splices plus minus).minus
      ≡ advance start splices plus minus
unfolding advance
advance-advance earlier start [] plus minus h = refl
advance-advance earlier start (s ∷ splices) plus minus h = elim (Bool-cases (leb s.end earlier)) [
  | inl done ↦
      let later : leb s.end start ≡ true = ground arith in
      rw (done, later, advance)
        (advance-advance earlier start splices (plus + length s.text) (minus + (s.end - s.start)) h)
  | inr stay ↦ rw (stay, advance)
]
