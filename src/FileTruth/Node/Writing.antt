-- ===== src/FileTruth/Node/Writing.antt =====
-- What the operations on files are taken to do, and what a write of the whole candidate leaves.
use mathlib.Core.Path.{subst}
use noto.FileTruth.Platform.{at_before_temp_write, at_after_write}
use noto.FileTruth.Platform.{CapturedFile}
use noto.Common.{
  not, ◌||◌, ◌&&◌, bool_eq, list_eq, ◌≢◌, drop, ltb, if◌then◌else◌, Bool-cases, ◌==◌, nat_eq,
  length-drop, length-take, zero, suc, ◌+◌, arith, true, false, ℕ, zero, suc, ◌+◌, ◌≤◌, ◌≡◌, refl,
  sym, ap, ◌∙◌, ◌≢◌, ◌⊎◌, inl, inr, Bool, true, false, not, ◌&&◌, ◌||◌, Option, some, List, [], ◌∷◌,
  ◌++◌, arith, ltb, if◌then◌else◌, Bool-cases, ◌==◌, nat_eq, bool_eq, list_eq, length, take, drop,
  length-take, length-drop, Text,
}
use noto.FileTruth.Platform.{Attempt, done, threw, Problem, Platform, FailurePoint}
use noto.FileTruth.Store.Saving.Settled.{Attempt-cases}
use noto.FileTruth.Store.Files.{KeepsOriginal, KeepsBoth, Wrote}
use noto.FileTruth.Node.{
  Linked, linked, already_there, unsupported, link_failed, Primitives, Capabilities, Io, give,
  fail_io, ◌>>>=◌, ◌>>>◌, write_rest, write_all, node_write_temp, node_flush, node_mode, node_close,
  node_remove, node_readback, check_readback,
}

take_past : (count : ℕ) (bytes : List ℕ) → length bytes ≤ count → take count bytes ≡ bytes
take_past zero [] h = refl
take_past zero (x ∷ bytes) h = absurd (omega arith)
take_past (suc count) [] h = refl
take_past (suc count) (x ∷ bytes) h =
    ap (λ (rest : List ℕ). x ∷ rest) (take_past count bytes (omega arith))

take_add :
    (offset count : ℕ) (bytes : List ℕ)
    → take offset bytes ++ take count (drop offset bytes) ≡ take (offset + count) bytes
take_add zero count bytes = let e : 0 + count ≡ count = omega arith in rw (e) refl
take_add (suc offset) count [] =
    take_past count [] (omega arith) ∙ sym (take_past (suc offset + count) [] (omega arith))
take_add (suc offset) count (x ∷ bytes) =
    let e : suc offset + count ≡ suc (offset + count) = omega arith in
    rw (e) (ap (λ (rest : List ℕ). x ∷ rest) (take_add offset count bytes))

module _ {W : Type 0} (fs : Primitives W) (base : Platform W) (content : W → Text → Option (List ℕ))
    (original temp : Text) where
  abbrev pub Kept : W → W → Type 0
  Kept = KeepsOriginal base content original temp

  abbrev pub KeptBoth : W → W → Type 0
  KeptBoth = KeepsBoth base content original temp

  -- A write at the end appends what it says it has written.
  abbrev pub Appends : List ℕ → List ℕ → Attempt ℕ → W → Type 0
  Appends before rest (done count) after =
      (count ≤ length rest) × (content after temp ≡ some (before ++ take count rest))
  Appends before rest (threw e) after = Unit

  -- A rename puts the one file in the place of the other as a whole, or not at all.
  abbrev pub Moves : W → Attempt Unit → W → Type 0
  Moves w (done x) after = content after original ≡ content w temp
  Moves w (threw e) after = Kept w after ⊎ (content after original ≡ content w temp)

  -- A link gives the file a second name, and takes no name that is there.
  abbrev pub Links : W → Linked → W → Type 0
  Links w linked after = content after original ≡ content w temp
  Links w already_there after = KeptBoth w after
  Links w unsupported after = KeptBoth w after
  Links w (link_failed e) after = Kept w after ⊎ (content after original ≡ content w temp)

  -- What node:fs/promises documents, and that the other operations change no file but their own.
  pub record FileSystem : Type 0 where
    pub open_exclusive : (w : W) → Kept w (fs.open_exclusive temp w).1
    pub opened :
        (w : W)
        → Wrote base content original temp []
            (fs.open_exclusive temp w).0
            (fs.open_exclusive temp w).1
    pub write_at : (rest : List ℕ) (offset : ℕ) (w : W) → Kept w (fs.write_at temp rest offset w).1
    pub appends :
        (before rest : List ℕ) (offset : ℕ) (w : W)
        → offset ≡ length before
        → content w temp ≡ some before
        → Appends before rest (fs.write_at temp rest offset w).0 (fs.write_at temp rest offset w).1
    pub sync_handle : (w : W) → KeptBoth w (fs.sync_handle temp w).1
    pub close : (path : Text) (w : W) → KeptBoth w (fs.close path w).1
    pub change_mode : (mode : ℕ) (w : W) → KeptBoth w (fs.change_mode temp mode w).1
    pub mode_of : (w : W) → KeptBoth w (fs.mode_of temp w).1
    pub rename : (w : W) → Moves w (fs.rename temp original w).0 (fs.rename temp original w).1
    pub link : (w : W) → Links w (fs.link temp original w).0 (fs.link temp original w).1
    pub lstat : (w : W) → KeptBoth w (fs.lstat original w).1
    pub remove_file : (path : Text) (w : W) → path ≢ original → Kept w (fs.remove_file path w).1
    pub hit : (x : FailurePoint) (w : W) → KeptBoth w (base.hit x w).1
    pub fingerprint : (w : W) → KeptBoth w (base.fingerprint original w).1
    pub capture : (w : W) → KeptBoth w (base.capture original w).1
    pub exists : (path : Text) (w : W) → KeptBoth w (base.exists path w).1
    pub read_bytes : (path : Text) (w : W) → KeptBoth w (base.read_bytes path w).1
    pub write_durable_file :
        (path : Text) (bytes : List ℕ) (w : W)
        → path ≢ original
        → path ≢ temp
        → KeptBoth w (base.write_durable_file path bytes w).1
    pub sync : (w : W) → KeptBoth w (base.sync_directory_of original w).1

  -- Steps that leave the original alone, and steps that leave both files alone.
  pub record Spares {A : Type 0} (R : W → W → Type 0) (m : Io W A) : Type 0 where
    pub spares : (w : W) → R w (m w).1

  pub bind-Spares :
      {A B : Type 0} (R : W → W → Type 0)
      → ((a b c : W) → R a b → R b c → R a c)
      → (m : Io W A) (f : A → Io W B) → Spares R m
      → ((x : A) → Spares R (f x))
      → Spares R (m >>>= f)
  unfolding ◌>>>=◌
  bind-Spares R trans m f k l = record {
    spares = λ w. elim (Attempt-cases (m w).0) [
      | inl (x, is) ↦ rw (is, ◌>>>=◌) (trans w (m w).1 _ (k.spares w) ((l x).spares (m w).1))
      | inr (e, is) ↦ rw (is, ◌>>>=◌) (k.spares w)
    ];
  }

  Kept-trans : (a b c : W) → Kept a b → Kept b c → Kept a c
  Kept-trans a b c h k = k ∙ h

  KeptBoth-trans : (a b c : W) → KeptBoth a b → KeptBoth b c → KeptBoth a c
  KeptBoth-trans a b c (h, h') (k, k') = (k ∙ h, k' ∙ h')

  pub both-Spares :
      {A B : Type 0} (m : Io W A) (f : A → Io W B)
      → Spares KeptBoth m
      → ((x : A) → Spares KeptBoth (f x))
      → Spares KeptBoth (m >>>= f)
  both-Spares m f k l = bind-Spares KeptBoth KeptBoth-trans m f k l

  pub one-Spares :
      {A B : Type 0} (m : Io W A) (f : A → Io W B)
      → Spares Kept m
      → ((x : A) → Spares Kept (f x))
      → Spares Kept (m >>>= f)
  one-Spares m f k l = bind-Spares Kept Kept-trans m f k l

  pub give-Spares : {A : Type 0} (x : A) → Spares KeptBoth (give x)
  give-Spares x = record { spares = λ w. (refl, refl) }

  pub fail_io-Spares : {A : Type 0} (e : Problem) → Spares {A = A} KeptBoth (fail_io e)
  fail_io-Spares e = record { spares = λ w. (refl, refl) }

  pub first-Spares : {A : Type 0} {m : Io W A} → Spares KeptBoth m → Spares Kept m
  first-Spares k = record { spares = λ w. (k.spares w).0 }

  pub if-Spares :
      {A : Type 0} (R : W → W → Type 0) (b : Bool) (m k : Io W A)
      → Spares R m
      → Spares R k
      → Spares R (if b then m else k)
  if-Spares R true m k x y = x
  if-Spares R false m k x y = y

  module _ (disk : FileSystem) (capabilities : Capabilities) where
    write_rest-Spares :
        (turns : ℕ) (bytes : List ℕ) (offset : ℕ)
        → Spares Kept (write_rest fs base capabilities turns temp bytes offset)
    unfolding write_rest
    write_rest-Spares zero bytes offset = first-Spares (give-Spares tt)
    write_rest-Spares (suc turns) bytes offset =
        if-Spares Kept (ltb offset (length bytes)) _ _
          (one-Spares _ _ (record { spares = λ w. disk.write_at _ _ w })
            (λ written.
              if-Spares Kept (written == 0) _ _ (first-Spares (fail_io-Spares _))
                (write_rest-Spares turns bytes (offset + written))))
          (first-Spares (give-Spares tt))

    -- With as many turns as there are bytes left, a write that ends has written them all.
    write_rest-Wrote :
        (turns : ℕ) (bytes : List ℕ) (offset : ℕ) (w : W)
        → offset ≤ length bytes
        → length bytes ≤ offset + turns
        → content w temp ≡ some (take offset bytes)
        → Wrote base content original temp bytes
            (write_rest fs base capabilities turns temp bytes offset w).0
            (write_rest fs base capabilities turns temp bytes offset w).1
    unfolding write_rest ◌>>>=◌
    write_rest-Wrote zero bytes offset w within enough here =
        here ∙ ap (λ x. some x) (take_past offset bytes (omega arith))
    write_rest-Wrote (suc turns) bytes offset w within enough here =
        elim (Bool-cases (ltb offset (length bytes))) [
          | inr past ↦
              rw (past, write_rest)
                (here ∙ ap (λ x. some x) (take_past offset bytes (ground (arith, past))))
          | inl more ↦ elim (Attempt-cases (fs.write_at temp (drop offset bytes) offset w).0) [
            | inr (e, is) ↦ rw (more, write_rest, is, ◌>>>=◌) tt
            | inl (count, is) ↦
                let after = (fs.write_at temp (drop offset bytes) offset w).1 in
                let (short, longer) =
                  subst (λ r. Appends (take offset bytes) (drop offset bytes) r after) is
                    (disk.appends (take offset bytes) (drop offset bytes) offset w
                      (omega (arith, length-take offset bytes)) here) in
                elim (Bool-cases (count == 0)) [
                  | inl none_written ↦ rw (more, write_rest, is, ◌>>>=◌, none_written) tt
                  | inr some_written ↦
                      rw (more, write_rest, is, ◌>>>=◌, some_written)
                        (write_rest-Wrote turns bytes (offset + count) after
                          (omega (arith, length-drop offset bytes)) (ground (arith, some_written))
                          (longer ∙ ap (λ x. some x) (take_add offset count bytes)))
                ]
          ]
        ]

    hit-Spares : (x : FailurePoint) → Spares KeptBoth (base.hit x)
    hit-Spares x = record { spares = disk.hit x }

    pub node_write_temp-Spares :
        (bytes : List ℕ) → Spares Kept (node_write_temp fs base capabilities temp bytes)
    unfolding node_write_temp write_all
    node_write_temp-Spares bytes =
        one-Spares _ _
          (one-Spares _ _ (first-Spares (hit-Spares _)) (λ x. write_rest-Spares _ bytes 0))
          (λ x. first-Spares (hit-Spares _))

    kept-Wrote :
        (bytes : List ℕ) (r : Attempt Unit) (w after : W)
        → content w temp ≡ some bytes
        → KeptBoth w after
        → Wrote base content original temp bytes r after
    kept-Wrote bytes (done x) w after here (_, same) = same ∙ here
    kept-Wrote bytes (threw e) w after here kept = tt

    -- An injected failure before or after the writing.
    hit_before :
        (bytes : List ℕ) (x : FailurePoint) (m : Io W Unit) (w : W)
        → Wrote base content original temp bytes (m (base.hit x w).1).0 (m (base.hit x w).1).1
        → Wrote base content original temp bytes ((base.hit x >>> m) w).0 ((base.hit x >>> m) w).1
    unfolding ◌>>>=◌
    hit_before bytes x m w h = elim (Attempt-cases (base.hit x w).0) [
      | inr (e, is) ↦ rw (is, ◌>>>=◌) tt
      | inl (y, is) ↦ rw (is, ◌>>>=◌) h
    ]

    hit_after :
        (bytes : List ℕ) (x : FailurePoint) (m : Io W Unit) (w : W)
        → Wrote base content original temp bytes (m w).0 (m w).1
        → Wrote base content original temp bytes ((m >>> base.hit x) w).0 ((m >>> base.hit x) w).1
    unfolding ◌>>>=◌
    hit_after bytes x m w h = elim (Attempt-cases (m w).0) [
      | inr (e, is) ↦ rw (is, ◌>>>=◌) tt
      | inl (y, is) ↦
          rw (is, ◌>>>=◌)
            (kept-Wrote bytes _ (m w).1 _
              (subst (λ r. Wrote base content original temp bytes r (m w).1) is h)
              (disk.hit x (m w).1))
    ]

    -- An empty file holds all the bytes when the write has ended.
    pub node_write_temp-Wrote :
        (bytes : List ℕ) (w : W)
        → content w temp ≡ some []
        → Wrote base content original temp bytes
            (node_write_temp fs base capabilities temp bytes w).0
            (node_write_temp fs base capabilities temp bytes w).1
    unfolding node_write_temp write_all ◌>>>=◌
    node_write_temp-Wrote bytes w empty =
        hit_after bytes at_after_write
          (base.hit at_before_temp_write >>> write_all fs base capabilities temp bytes) w
          (hit_before bytes at_before_temp_write (write_all fs base capabilities temp bytes) w (
            write_rest-Wrote (length bytes) bytes 0 (base.hit at_before_temp_write w).1
              (omega arith) (omega arith) ((disk.hit at_before_temp_write w).1 ∙ empty)))

    pub node_flush-Spares : Spares KeptBoth (node_flush fs base capabilities temp)
    unfolding node_flush
    node_flush-Spares = both-Spares _ _ (record { spares = disk.sync_handle }) (λ x. hit-Spares _)

    pub node_mode-Spares : (mode : ℕ) → Spares KeptBoth (node_mode fs base capabilities temp mode)
    unfolding node_mode
    node_mode-Spares mode =
        both-Spares _ _
          (both-Spares _ _
            (both-Spares _ _ (hit-Spares _) (λ x. record { spares = disk.change_mode mode }))
            (λ x.
              if-Spares KeptBoth capabilities.preserves_posix_mode _ _
                (both-Spares _ _ (record { spares = disk.mode_of })
                  (λ actual.
                    if-Spares KeptBoth (actual == mode) _ _ (give-Spares tt) (fail_io-Spares _)))
                (give-Spares tt)))
          (λ x. record { spares = disk.sync_handle })

    pub node_close-Spares : (path : Text) → Spares KeptBoth (node_close fs base capabilities path)
    unfolding node_close
    node_close-Spares path =
        both-Spares _ _ (record { spares = disk.close path }) (λ x. hit-Spares _)

    pub node_remove-Spares :
        (path : Text) → path ≢ original → Spares Kept (node_remove fs base capabilities path)
    unfolding node_remove
    node_remove-Spares path apart =
        one-Spares _ _ (first-Spares (hit-Spares _))
          (λ x. record { spares = λ w. disk.remove_file path w apart })

    check_readback-Spares :
        (bytes : List ℕ) (mode : ℕ) (captured : CapturedFile)
        → Spares KeptBoth (check_readback fs base capabilities bytes mode captured)
    unfolding check_readback
    check_readback-Spares bytes mode captured =
        if-Spares KeptBoth
          (not (length captured.bytes == length bytes)
            || not (
                base.engine.host.sha256_bytes captured.bytes
                == base.engine.host.sha256_bytes bytes))
          _ _ (fail_io-Spares _)
          (if-Spares KeptBoth
            (capabilities.preserves_posix_mode && not (captured.identity.posix_mode == mode)) _ _
            (fail_io-Spares _) (give-Spares _))

    pub node_readback-Spares :
        (bytes : List ℕ) (mode : ℕ)
        → Spares KeptBoth (node_readback fs base capabilities original bytes mode)
    unfolding node_readback
    node_readback-Spares bytes mode =
        both-Spares _ _ (both-Spares _ _ (hit-Spares _) (λ x. record { spares = disk.capture }))
          (λ captured. check_readback-Spares bytes mode captured)
