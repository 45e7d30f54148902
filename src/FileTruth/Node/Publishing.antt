-- ===== src/FileTruth/Node/Publishing.antt =====
-- The two ways of node-platform.ts to put the temporary file in the place of the original.
use mathlib.Core.Path.{subst}
use noto.FileTruth.Node.{
  linked, link_failed, is_not_found, conflict_at, same_fingerprint, Linked, node_platform, replace,
  attempt_io, publish_by_rename, fingerprint_if_readable, exists_at_all, there,
  node_replace_expected, after_link, node_publish_if_absent, try_link, Primitives, Capabilities, Io,
  give, ◌>>>=◌, ◌>>>◌,
}
use noto.FileTruth.Node.{already_there, unsupported, link_failed}
use noto.Common.{
  ap, ◌≡◌, ◌≢◌, sym, some, refl, Option, ◌∙◌, ℕ, inl, inr, Bool, true, false, List, if◌then◌else◌,
  nat_eq, bool_eq, list_eq, Text,
}
use noto.FileTruth.{FileFingerprint}
use noto.FileTruth.Platform.{
  Attempt, done, threw, Problem, Platform, FailurePoint, Replacement, replaced, conflicted,
}
use noto.FileTruth.Store.Files.{Files, Replaces}
use noto.FileTruth.Store.Saving.Settled.{Attempt-cases}
use noto.FileTruth.Node.Writing.{
  node_remove-Spares, node_write_temp-Wrote, node_write_temp-Spares, node_readback-Spares,
  node_close-Spares, fail_io-Spares, node_mode-Spares, Links, if-Spares, node_flush-Spares,
  both-Spares, give-Spares, KeptBoth, Moves, FileSystem, Spares,
}

bind_done :
    {W A B : Type 0} (m : Io W A) (f : A → Io W B) (w : W) (x : A)
    → (m w).0 ≡ done x
    → (m >>>= f) w ≡ f x (m w).1
unfolding ◌>>>=◌
bind_done m f w x is = rw (is, ◌>>>=◌) refl

bind_threw :
    {W A B : Type 0} (m : Io W A) (f : A → Io W B) (w : W) (e : Problem)
    → (m w).0 ≡ threw e
    → (m >>>= f) w ≡ (threw e, (m w).1)
unfolding ◌>>>=◌
bind_threw m f w e is = rw (is, ◌>>>=◌) refl

bind_assoc :
    {W A B C : Type 0} (m : Io W A) (k : Io W B) (l : Io W C) (w : W)
    → ((m >>> k) >>> l) w ≡ (m >>> (k >>> l)) w
unfolding ◌>>>=◌
bind_assoc {W = W} {B = B} {C = C} m k l w =
    let follow : Attempt B × W → Attempt C × W =
      λ r. elim r.0 [ done x ↦ l r.1 | threw e ↦ (threw e, r.1) ] in
    elim (Attempt-cases (m w).0) [
      | inl (x, is) ↦
          ap follow (bind_done m (λ y. k) w x is) ∙ sym (bind_done m (λ y. k >>> l) w x is)
      | inr (e, is) ↦
          ap follow (bind_threw m (λ y. k) w e is) ∙ sym (bind_threw m (λ y. k >>> l) w e is)
    ]

module _ {W : Type 0} (fs : Primitives W) (base : Platform W) (content : W → Text → Option (List ℕ))
    (original temp : Text) (capabilities : Capabilities) where
  -- A step that replaces the original as a whole, or leaves it alone, and says which.
  record Puts (m : Io W Replacement) : Type 0 where
    puts : (w : W) → Replaces base content original temp w (m w).0 (m w).1

  Replaces-after :
      (w before after : W) (r : Attempt Replacement)
      → KeptBoth fs base content original temp w before
      → Replaces base content original temp before r after
      → Replaces base content original temp w r after
  Replaces-after w before after (done replaced) (h, k) put = put ∙ k
  Replaces-after w before after (done (conflicted current)) (h, k) put = put ∙ h
  Replaces-after w before after (threw e) (h, k) (inl put) = inl (put ∙ h)
  Replaces-after w before after (threw e) (h, k) (inr put) = inr (put ∙ k)

  bind-Puts :
      {A : Type 0} (m : Io W A) (f : A → Io W Replacement)
      → Spares fs base content original temp (KeptBoth fs base content original temp) m
      → ((x : A) → Puts (f x))
      → Puts (m >>>= f)
  unfolding ◌>>>=◌
  bind-Puts m f k l = record {
    puts = λ w. elim (Attempt-cases (m w).0) [
      | inl (x, is) ↦
          rw (is, ◌>>>=◌)
            (Replaces-after w (m w).1 _ (f x (m w).1).0 (k.spares w) ((l x).puts (m w).1))
      | inr (e, is) ↦ rw (is, ◌>>>=◌) (inl (k.spares w).0)
    ];
  }

  if-Puts : (b : Bool) (m k : Io W Replacement) → Puts m → Puts k → Puts (if b then m else k)
  if-Puts true m k x y = x
  if-Puts false m k x y = y

  module _ (disk : FileSystem fs base content original temp) where
    hit-Spares :
        (x : FailurePoint)
        → Spares fs base content original temp (KeptBoth fs base content original temp) (base.hit x)
    hit-Spares x = record { spares = disk.hit x }

    conflict-Puts : (current : Option FileFingerprint) → Puts (give (conflicted current))
    conflict-Puts current = record { puts = λ w. refl }

    moved :
        (w after : W) (r : Attempt Unit)
        → Moves fs base content original temp w r after
        → ((e : Problem) → r ≡ threw e → Replaces base content original temp w (threw e) after)
          × ((x : Unit) → r ≡ done x → Replaces base content original temp w (done replaced) after)
    moved w after (done x) h = (λ e is. absurd (cc), λ y is. h)
    moved w after (threw e) h = (λ x is. h, λ y is. absurd (cc))

    rename-Puts : Puts (fs.rename temp original >>> give replaced)
    unfolding ◌>>>=◌
    rename-Puts = record {
      puts = λ w.
          let (failed, finished) = moved w _ (fs.rename temp original w).0 (disk.rename w) in
          elim (Attempt-cases (fs.rename temp original w).0) [
            | inl (x, is) ↦ rw (is, ◌>>>=◌) (finished x is)
            | inr (e, is) ↦ rw (is, ◌>>>=◌) (failed e is)
          ];
    }

    -- The same after steps that may fail.
    prefixed-Puts :
        (m : Io W Unit)
        → Spares fs base content original temp (KeptBoth fs base content original temp) m
        → Puts (m >>> fs.rename temp original >>> give replaced)
    prefixed-Puts m k = record {
      puts = λ w.
          subst (λ (r : Attempt Replacement × W). Replaces base content original temp w r.0 r.1)
            (sym (bind_assoc m (fs.rename temp original) (give replaced) w))
            ((bind-Puts m _ k (λ x. rename-Puts)).puts w);
    }

    fingerprint-Spares :
        Spares fs base content original temp
          (KeptBoth fs base content original temp)
          (base.fingerprint original)
    fingerprint-Spares = record { spares = disk.fingerprint }

    conflict_at-Puts : Puts (conflict_at fs base capabilities original)
    unfolding fingerprint_if_readable attempt_io ◌>>>=◌
    conflict_at-Puts = record { puts = λ w. (disk.fingerprint w).0 }

    there-Spares :
        (found : Attempt Unit)
        → Spares fs base content original temp
            (KeptBoth fs base content original temp)
            (there fs base capabilities found)
    unfolding there
    there-Spares (done x) = give-Spares fs base content original temp true
    there-Spares (threw e) =
        if-Spares fs base content original temp (KeptBoth fs base content original temp)
          (is_not_found e.reason) _ _ (give-Spares fs base content original temp false)
          (fail_io-Spares fs base content original temp e)

    exists_at_all-Spares :
        Spares fs base content original temp
          (KeptBoth fs base content original temp)
          (exists_at_all fs base capabilities original)
    unfolding exists_at_all attempt_io
    exists_at_all-Spares =
        both-Spares fs base content original temp _ _ (record { spares = disk.lstat })
          (λ found. there-Spares found)

    publish_by_rename-Puts : Puts (publish_by_rename fs base capabilities temp original)
    unfolding publish_by_rename
    publish_by_rename-Puts =
        bind-Puts _ _ exists_at_all-Spares
          (λ occupied. if-Puts occupied _ _ conflict_at-Puts rename-Puts)

    after_link-Replaces :
        (answer : Linked) (w after : W)
        → temp ≢ original
        → Links fs base content original temp w answer after
        → Replaces base content original temp w
            (after_link fs base capabilities temp original answer after).0
            (after_link fs base capabilities temp original answer after).1
    unfolding after_link attempt_io ◌>>>=◌
    after_link-Replaces linked w after apart put = disk.remove_file temp after apart ∙ put
    after_link-Replaces already_there w after apart kept =
        Replaces-after w after _ _ kept (conflict_at-Puts.puts after)
    after_link-Replaces unsupported w after apart kept =
        Replaces-after w after _ _ kept (publish_by_rename-Puts.puts after)
    after_link-Replaces (link_failed e) w after apart put = put

    try_link-Puts : temp ≢ original → Puts (try_link fs base capabilities temp original)
    unfolding try_link
    try_link-Puts apart = record {
      puts = λ w. after_link-Replaces (fs.link temp original w).0 w _ apart (disk.link w);
    }

    node_publish_if_absent-Puts :
        temp ≢ original → Puts (node_publish_if_absent fs base capabilities temp original)
    unfolding node_publish_if_absent
    node_publish_if_absent-Puts apart =
        bind-Puts _ _
          (both-Spares fs base content original temp _ _ (hit-Spares _) (λ x. hit-Spares _))
          (λ x. if-Puts capabilities.can_hard_link _ _ (try_link-Puts apart) publish_by_rename-Puts)

    node_replace_expected-Puts :
        (expected : FileFingerprint)
        → Puts (node_replace_expected fs base capabilities temp original expected)
    unfolding node_replace_expected replace
    node_replace_expected-Puts expected =
        bind-Puts _ _
          (both-Spares fs base content original temp _ _ (hit-Spares _) (λ x. fingerprint-Spares))
          (λ current.
            if-Puts (same_fingerprint (some expected) current) _ _
              (prefixed-Puts _
                (both-Spares fs base content original temp _ _ (hit-Spares _) (λ x. hit-Spares _)))
              (conflict-Puts current))

    -- The platform does to the two files what a save relies on.
    pub node_platform-Files :
        temp ≢ original → Files (node_platform fs base capabilities) content original temp
    node_platform-Files apart = record {
      hit = disk.hit;
      fingerprint = disk.fingerprint;
      exists = disk.exists;
      read_bytes = disk.read_bytes;
      write_durable_file = disk.write_durable_file;
      flush = (node_flush-Spares fs base content original temp disk capabilities).spares;
      mode = λ mode. (node_mode-Spares fs base content original temp disk capabilities mode).spares;
      close =
          λ path. (node_close-Spares fs base content original temp disk capabilities path).spares;
      sync = disk.sync;
      readback = λ bytes mode.
          (node_readback-Spares fs base content original temp disk capabilities bytes mode).spares;
      create = disk.open_exclusive;
      created = disk.opened;
      write = λ bytes.
          (node_write_temp-Spares fs base content original temp disk capabilities bytes).spares;
      wrote = node_write_temp-Wrote fs base content original temp disk capabilities;
      remove = λ path w a.
          (node_remove-Spares fs base content original temp disk capabilities path a).spares w;
      publish = (node_publish_if_absent-Puts apart).puts;
      replace = λ f. (node_replace_expected-Puts f).puts;
    }
