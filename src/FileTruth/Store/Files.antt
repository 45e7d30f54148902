-- ===== src/FileTruth/Store/Files.antt =====
-- What a save relies on of the operations on files: which file each of them may change, and that a
-- replacement puts the temporary file in the place of the original, or leaves the original alone. Any
-- of them may fail; a write may fail halfway, and a replacement after it was done. The operations of
-- FileTruth.Node are shown to be so.
use noto.Common.{
  ℕ, ◌≡◌, sym, ◌≢◌, ◌⊎◌, Option, none, some, List, [], ◌∷◌, nat_eq, bool_eq, list_eq, Text,
}
use mathlib.Core.Path.{subst}
use noto.FileTruth.{FileFingerprint, Stage, SaveOutcome, PrimaryOutcome, FailureStatus}
use noto.FileTruth.Platform.{
  FailurePoint, Journal, Attempt, done, threw, Platform, Replacement, replaced, conflicted,
}
use noto.FileTruth.Store.{Store, Cell, pure, in_world, change, reach, hold}
use noto.FileTruth.Store.Steps.{
  finish, fail_with, fail_outcome, conflict, existing, persist_journal, load_journal,
  cleanup_failure, remove_if, after_cleanup, cleanup_then,
}
use noto.FileTruth.Store.Triples.{
  Post, Stays, bind-Triple, then-Triple, attempt-Stays, here-Triple, if-Triple,
}

module _ {W : Type 0} (p : Platform W) (content : W → Text → Option (List ℕ))
    (original temp : Text) where
  abbrev pub KeepsOriginal : W → W → Type 0
  KeepsOriginal w after = content after original ≡ content w original

  abbrev pub KeepsBoth : W → W → Type 0
  KeepsBoth w after = KeepsOriginal w after × (content after temp ≡ content w temp)

  -- What a replacement does to the original, by its answer.
  abbrev pub Replaces : W → Attempt Replacement → W → Type 0
  Replaces w (done replaced) after = content after original ≡ content w temp
  Replaces w (done (conflicted current)) after = KeepsOriginal w after
  Replaces w (threw e) after = KeepsOriginal w after ⊎ (content after original ≡ content w temp)

  abbrev pub Wrote : List ℕ → Attempt Unit → W → Type 0
  Wrote bytes (done x) after = content after temp ≡ some bytes
  Wrote bytes (threw e) after = Unit

  pub record Files : Type 0 where
    pub hit : (x : FailurePoint) (w : W) → KeepsBoth w (p.hit x w).1
    pub fingerprint : (w : W) → KeepsBoth w (p.fingerprint original w).1
    pub exists : (path : Text) (w : W) → KeepsBoth w (p.exists path w).1
    pub read_bytes : (path : Text) (w : W) → KeepsBoth w (p.read_bytes path w).1
    pub write_durable_file :
        (path : Text) (bytes : List ℕ) (w : W)
        → path ≢ original
        → path ≢ temp
        → KeepsBoth w (p.write_durable_file path bytes w).1
    pub flush : (w : W) → KeepsBoth w (p.flush temp w).1
    pub mode : (mode : ℕ) (w : W) → KeepsBoth w (p.apply_and_verify_mode temp mode w).1
    pub close : (path : Text) (w : W) → KeepsBoth w (p.close_handle path w).1
    pub sync : (w : W) → KeepsBoth w (p.sync_directory_of original w).1
    pub readback :
        (bytes : List ℕ) (mode : ℕ) (w : W)
        → KeepsBoth w (p.verify_readback original bytes mode w).1
    pub create : (w : W) → KeepsOriginal w (p.create_exclusive_temp temp w).1
    pub created :
        (w : W) → Wrote [] (p.create_exclusive_temp temp w).0 (p.create_exclusive_temp temp w).1
    pub write : (bytes : List ℕ) (w : W) → KeepsOriginal w (p.write_temp temp bytes w).1
    pub wrote :
        (bytes : List ℕ) (w : W)
        → content w temp ≡ some []
        → Wrote bytes (p.write_temp temp bytes w).0 (p.write_temp temp bytes w).1
    pub remove : (path : Text) (w : W) → path ≢ original → KeepsOriginal w (p.remove path w).1
    pub publish :
        (w : W)
        → Replaces w (p.publish_if_absent temp original w).0 (p.publish_if_absent temp original w).1
    pub replace :
        (f : FileFingerprint) (w : W)
        → Replaces w
            (p.validate_expected_and_replace temp original f w).0
            (p.validate_expected_and_replace temp original f w).1

  -- A statement on what the two files hold.
  abbrev pub Pair : Type 1
  Pair = Option (List ℕ) → Option (List ℕ) → Type 0

  abbrev pub On : Pair → Cell W → Type 0
  On F c = F (content c.world original) (content c.world temp)

  same-Post :
      {A : Type 0} (P : Cell W → Type 0) (r : Attempt A) (c : Cell W) → P c → Post (λ x. P) P r c
  same-Post P (done x) c h = h
  same-Post P (threw e) c h = h

  pub calm-Stays :
      {A : Type 0} (F : Pair) (f : W → Attempt A × W)
      → ((w : W) → KeepsBoth w (f w).1)
      → Stays (On F) (in_world f)
  calm-Stays F f k = record {
    holds = λ c h.
        let after = (f c.world).1 in
        let (first, second) = k c.world in
        same-Post (On F) (f c.world).0 (record c { world = after })
          (subst (λ (x : Option (List ℕ)). F x (content after temp)) (sym first)
            (subst (λ (y : Option (List ℕ)). F (content c.world original) y) (sym second) h));
  }

  pub original-Stays :
      {A : Type 0} (G : Option (List ℕ) → Type 0) (f : W → Attempt A × W)
      → ((w : W) → KeepsOriginal w (f w).1)
      → Stays (On (λ x y. G x)) (in_world f)
  original-Stays G f k = record {
    holds = λ c h.
        same-Post (On (λ x y. G x)) (f c.world).0 (record c { world = (f c.world).1 })
          (subst G (sym (k c.world)) h);
  }

  -- What touches no world.
  pub pure-Stays : {A : Type 0} (F : Pair) (x : A) → Stays (On F) (pure x)
  pure-Stays F x = record { holds = λ c h. h }

  pub change-Stays : (F : Pair) (f : Store → Store) → Stays (On F) (change f)
  change-Stays F f = record { holds = λ c h. h }

  pub hold-Stays : (F : Pair) (handle : Option Text) → Stays (On F) (hold handle)
  hold-Stays F handle = record { holds = λ c h. h }

  pub reach-Stays : (F : Pair) (stage : Stage) → Stays (On F) (reach stage)
  reach-Stays F stage = record { holds = λ c h. h }

  module _ (files : Files) where
    pub existing-Stays : (F : Pair) (paths : List Text) → Stays (On F) (existing p paths)
    unfolding existing
    existing-Stays F [] = pure-Stays F []
    existing-Stays F (path ∷ paths) =
        bind-Triple _ _ (attempt-Stays _ (calm-Stays F _ (files.exists path)))
          (λ there. bind-Triple _ _ (existing-Stays F paths) (λ rest. pure-Stays F _))

    pub persist_journal-Stays :
        (F : Pair) (journal : Journal)
        → journal.published.journal_path ≢ original
        → journal.published.journal_path ≢ temp
        → Stays (On F) (persist_journal p journal)
    unfolding persist_journal
    persist_journal-Stays F journal apart beside =
        then-Triple
          (then-Triple (calm-Stays F _ (files.hit _))
            (calm-Stays F _ (λ w. files.write_durable_file _ _ w apart beside)))
          (change-Stays F _)

    pub load_journal-Stays : (F : Pair) (path : Option Text) → Stays (On F) (load_journal p path)
    unfolding load_journal
    load_journal-Stays F none = pure-Stays F none
    load_journal-Stays F (some path) = bind-Triple _ _ (calm-Stays F _ (files.exists _)) (λ there.
        if-Triple there _ _
          (bind-Triple _ _ (calm-Stays F _ (files.read_bytes _))
            (λ bytes. record { holds = λ c h. same-Post (On F) _ c h }))
          (pure-Stays F none))

    pub fail_with-Stays :
        (F : Pair) (status : FailureStatus) (attempt_id : Text) (stage : Stage)
        (recovery : Option Journal) (residue : List Text)
        → Stays (On F) (fail_with p status attempt_id stage recovery residue)
    unfolding fail_with
    fail_with-Stays F status attempt_id stage recovery residue =
        then-Triple (change-Stays F _) (pure-Stays F _)

    pub fail_outcome-Stays :
        (F : Pair) (status : FailureStatus) (attempt_id : Text) (stage : Stage)
        (recovery : Option Journal) (residue : List Text)
        → Stays (On F) (fail_outcome p status attempt_id stage recovery residue)
    fail_outcome-Stays F status attempt_id stage recovery residue =
        bind-Triple _ _ (fail_with-Stays F status attempt_id stage recovery residue)
          (λ first. pure-Stays F _)

    pub conflict-Stays :
        (F : Pair) (attempt_id : Text) (stage : Stage) (accepted : FileFingerprint)
        (current : Option FileFingerprint)
        → Stays (On F) (conflict p attempt_id stage accepted current)
    unfolding conflict
    conflict-Stays F attempt_id stage accepted current =
        then-Triple (change-Stays F _) (pure-Stays F _)

    pub finish-Stays : (F : Pair) (outcome : SaveOutcome) → Stays (On F) (finish p outcome)
    finish-Stays F outcome = then-Triple (change-Stays F _) (pure-Stays F _)

    pub cleanup_failure-Stays :
        (F : Pair) (first : PrimaryOutcome) (residue : List Text)
        → Stays (On F) (cleanup_failure p first residue)
    unfolding cleanup_failure
    cleanup_failure-Stays F first residue =
        here-Triple _ (λ c. then-Triple (change-Stays F _) (finish-Stays F _))

    after_cleanup-Stays :
        (F : Pair) (first : PrimaryOutcome) (journal : Journal) (cleaned : Attempt Unit)
        → Stays (On F) (after_cleanup p first journal cleaned)
    unfolding after_cleanup
    after_cleanup-Stays F first journal (done x) = then-Triple (change-Stays F _) (finish-Stays F _)
    after_cleanup-Stays F first journal (threw e) =
        bind-Triple _ _ (existing-Stays F _) (λ residue. cleanup_failure-Stays F first residue)

    abbrev pub Apart : Option Text → Type 0
    Apart none = Unit
    Apart (some path) = path ≢ original

    remove_if-Stays :
        (G : Option (List ℕ) → Type 0) (path : Option Text)
        → Apart path
        → Stays (On (λ x y. G x)) (remove_if p path)
    remove_if-Stays G none apart = pure-Stays (λ x y. G x) tt
    remove_if-Stays G (some path) apart = original-Stays G _ (λ w. files.remove path w apart)

    -- The cleanup removes the other files, and leaves the original alone.
    pub cleanup_then-Stays :
        (G : Option (List ℕ) → Type 0) (first : PrimaryOutcome) (journal : Journal)
        → Apart journal.published.temp_path
        → journal.published.payload_path ≢ original
        → journal.published.journal_path ≢ original
        → Stays (On (λ x y. G x)) (cleanup_then p first journal)
    unfolding cleanup_then
    cleanup_then-Stays G first journal apart payload beside =
        bind-Triple _ _
          (attempt-Stays _ (
            then-Triple
              (then-Triple (remove_if-Stays G _ apart)
                (original-Stays G _ (λ w. files.remove _ w payload)))
              (original-Stays G _ (λ w. files.remove _ w beside))))
          (λ cleaned. after_cleanup-Stays (λ x y. G x) first journal cleaned)
