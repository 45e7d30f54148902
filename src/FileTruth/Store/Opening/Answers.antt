-- ===== src/FileTruth/Store/Opening/Answers.antt =====
-- What a reply to the opening of a file says of the store.
use noto.Common.{
  ℕ, ◌≡◌, refl, true, ◌||◌, Option, none, some, List, [], ◌∷◌, ltb, is_some, nat_eq, bool_eq,
  list_eq, length, Text,
}
use mathlib.Core.Path.{subst}
use noto.Contracts.{Document}
use noto.Document.{ParseResult, parsed, invalid_utf8, parse_document, to_wire}
use noto.Document.Named.{IsRevision, parse_document-IsRevision}
use noto.FileTruth.{Stage, recovery_failed, AcceptedFileIdentity, PrimaryOutcome}
use noto.FileTruth.Platform.{Journal, Attempt, done, threw, Platform, CapturedFile}
use noto.FileTruth.Store.{Store, Cell, Step, pure, ◌>>=◌, ◌>>◌, change}
use noto.FileTruth.Store.Steps.{public_recovery, fail_with, existing}
use noto.FileTruth.Store.Triples.{
  Post, Triple, Stays, bind-Triple, then-Triple, attempt-Stays, here-Triple, if-Triple,
  weaken-Triple,
}
use noto.FileTruth.Store.Recovering.{is_candidate}
use noto.FileTruth.Store.Quiet.{
  Quiet, bind-Quiet, in_world-Quiet, pure-Quiet, attempt-Quiet, if-Quiet, Quiet-Triple,
  existing-Quiet, load_journal-Quiet,
}
use noto.FileTruth.Store.Opening.{
  check_journal, reply_with, OpenReply, opened, adopt_journal, check_orphans, project_parsed,
  try_project, after_projection, check_recovery, cleanup_blocked, remove_all, after_removals,
  internal_temps, remove_temps, clean_owned, clean_temps, unless_failed, reply_opened, open_parsed,
  open_file,
}

module _ {W : Type 0} (p : Platform W) (attempt_id : Text) where
  pub remove_all-Quiet : (paths : List Text) → Quiet (remove_all p attempt_id paths)
  unfolding remove_all
  remove_all-Quiet [] = pure-Quiet tt
  remove_all-Quiet (path ∷ paths) = bind-Quiet _ _ (in_world-Quiet _) (λ x. remove_all-Quiet paths)

  pub internal_temps-Quiet : Quiet (internal_temps p attempt_id)
  unfolding internal_temps
  internal_temps-Quiet =
      bind-Quiet _ _ (in_world-Quiet _)
        (λ there. if-Quiet there _ _ (in_world-Quiet _) (pure-Quiet []))

  -- A revision, under the store's own identity.
  abbrev pub Owned : Text → Option Document → Type 0
  Owned id none = ⊥
  Owned id (some d) = (d.document_id ≡ id) × IsRevision p.engine.host d

  abbrev pub HoldsFile : AcceptedFileIdentity → Store → Type 0
  HoldsFile identity s =
      (s.accepted_path ≡ some identity.canonical_path)
      × (s.accepted_fingerprint ≡ some identity.fingerprint)
      × Owned s.document_id s.document

  -- So far in the opening: saving is barred if a check has failed or a journal is there.
  abbrev pub Loaded : AcceptedFileIdentity → Option PrimaryOutcome → Store → Type 0
  Loaded identity outcome s =
      HoldsFile identity s × (s.recovery_blocked ≡ (is_some outcome || is_some s.recovery))

  abbrev pub Answers : OpenReply → Store → Type 0
  Answers r s =
      (s.accepted_path ≡ some r.path)
      × (s.accepted_fingerprint ≡ some r.save_token.fingerprint)
      × (s.editor_revision ≡ r.save_token.editor_revision)
      × (r.recovery ≡ public_recovery s.recovery)
      × (s.recovery_blocked ≡ (is_some r.initial_outcome || is_some s.recovery))
      × ((d : Document) × (s.document ≡ some d)
          × (r.document ≡ to_wire d)
          × (r.save_token.document_revision_id ≡ d.revision_id)
          × (d.document_id ≡ s.document_id)
          × IsRevision p.engine.host d)

  module _ (identity : AcceptedFileIdentity) where
    abbrev At : Option PrimaryOutcome → Cell W → Type 0
    At outcome c = Loaded identity outcome c.store

    abbrev Anything : Cell W → Type 0
    Anything c = Unit

    abbrev Checks : Option PrimaryOutcome → Step W (Option PrimaryOutcome) → Type 0
    Checks outcome m = Triple (At outcome) m At Anything

    adopt_journal-Triple :
        (loaded : Attempt (Option Journal))
        → Triple (λ c. HoldsFile identity c.store) (adopt_journal p attempt_id loaded) At Anything
    unfolding adopt_journal fail_with ◌>>=◌
    adopt_journal-Triple (done journal) = record { holds = λ c h. (h, refl) }
    adopt_journal-Triple (threw e) = record { holds = λ c h. (h, refl) }

    unfailing-Triple :
        {A : Type 0} (outcome : Option PrimaryOutcome) (m : Step W A)
        → Quiet m
        → Triple (At outcome) m (λ x. At outcome) Anything
    unfailing-Triple outcome m k =
        weaken-Triple (λ c h. h) (λ x c h. h) (λ c h. tt)
          (Quiet-Triple (Loaded identity outcome) m k)

    -- A check that has failed bars saving, and says so.
    abbrev Barred : Cell W → Type 0
    Barred c = HoldsFile identity c.store × (c.store.recovery_blocked ≡ true)

    failed-Triple :
        (stage : Stage) (recovery : Option Journal) (residue : List Text)
        → Triple Barred
            (fail_with p recovery_failed attempt_id stage recovery residue >>= λ first.
              pure (some first))
            At
            Anything
    unfolding fail_with ◌>>=◌
    failed-Triple stage recovery residue = record { holds = λ c h. h }

    Barred-Triple :
        (paths : List Text) (f : List Text → Step W (Option PrimaryOutcome))
        → ((residue : List Text) → Triple Barred (f residue) At Anything)
        → (outcome : Option PrimaryOutcome)
        → Triple
            (At outcome)
            (change (λ s. record s { recovery_blocked = true }) >> (existing p paths >>= f))
            At
            Anything
    Barred-Triple paths f k outcome =
        then-Triple {Q = Barred} (record { holds = λ c h. (h.0, refl) })
          (bind-Triple _ _
            (weaken-Triple (λ c h. h) (λ x c h. h) (λ c h. tt)
              (Quiet-Triple (λ s. HoldsFile identity s × (s.recovery_blocked ≡ true)) _
                (existing-Quiet p paths)))
            k)

    check_orphans-Triple : (path : Text) → Checks none (check_orphans p attempt_id path)
    unfolding check_orphans
    check_orphans-Triple path =
        bind-Triple _ _ (unfailing-Triple none _ (in_world-Quiet _)) (λ orphaned.
          if-Triple (ltb 0 (length orphaned)) _ _
            (then-Triple {Q = Barred} (record { holds = λ c h. (h.0, refl) })
              (failed-Triple _ none orphaned))
            (record { holds = λ c h. h }))

    project_parsed-Stays :
        (bytes : List ℕ) (result : ParseResult)
        → parse_document p.engine.host bytes ≡ result
        → Stays (At none) (project_parsed p attempt_id result)
    unfolding project_parsed
    project_parsed-Stays bytes (invalid_utf8 x) is = record { holds = λ c h. h }
    project_parsed-Stays bytes (parsed d) is = record {
      holds =
          λ c h. ((h.0.0, h.0.1, (refl, parse_document-IsRevision p.engine.host bytes d is)), h.1);
    }

    try_project-Stays : (journal : Journal) → Stays (At none) (try_project p attempt_id journal)
    unfolding try_project
    try_project-Stays journal =
        bind-Triple _ _ (Quiet-Triple (Loaded identity none) _ (in_world-Quiet _)) (λ bytes.
          if-Triple (is_candidate p attempt_id journal bytes) _ _
            (project_parsed-Stays bytes _ refl) (record { holds = λ c h. h }))

    after_projection-Triple :
        (journal : Journal) (projected : Attempt Unit)
        → Checks none (after_projection p attempt_id journal projected)
    unfolding after_projection
    after_projection-Triple journal (done x) = record { holds = λ c h. h }
    after_projection-Triple journal (threw e) =
        Barred-Triple _ _ (λ residue. failed-Triple _ _ residue) none

    check_journal-Triple :
        (path : Text) (journal : Option Journal)
        → Checks none (check_journal p attempt_id path journal)
    unfolding check_journal
    check_journal-Triple path none = check_orphans-Triple path
    check_journal-Triple path (some journal) =
        bind-Triple _ _
          (weaken-Triple (λ c h. h) (λ x c h. h) (λ c h. tt)
            (attempt-Stays _ (try_project-Stays journal)))
          (λ projected. after_projection-Triple journal projected)

    check_recovery-Triple : (path : Text) → Checks none (check_recovery p attempt_id path)
    unfolding check_recovery
    check_recovery-Triple path = here-Triple _ (λ c. check_journal-Triple path c.store.recovery)

    cleanup_blocked-Triple :
        (candidates : List Text) → Checks none (cleanup_blocked p attempt_id candidates)
    unfolding cleanup_blocked
    cleanup_blocked-Triple candidates =
        here-Triple _ (λ c. Barred-Triple _ _ (λ residue. failed-Triple _ _ residue) none)

    after_removals-Triple :
        (candidates : List Text) (removed : Attempt Unit)
        → Checks none (after_removals p attempt_id candidates removed)
    unfolding after_removals
    after_removals-Triple candidates (done x) = record { holds = λ c h. h }
    after_removals-Triple candidates (threw e) = cleanup_blocked-Triple candidates

    remove_temps-Triple :
        (owned : List Text) (internal : Attempt (List Text))
        → Checks none (remove_temps p attempt_id owned internal)
    unfolding remove_temps
    remove_temps-Triple owned (threw e) = cleanup_blocked-Triple owned
    remove_temps-Triple owned (done internal) =
        bind-Triple _ _ (unfailing-Triple none _ (attempt-Quiet _ (remove_all-Quiet _)))
          (λ removed. after_removals-Triple _ removed)

    clean_owned-Triple :
        (temps : Attempt (List Text)) → Checks none (clean_owned p attempt_id temps)
    unfolding clean_owned
    clean_owned-Triple (threw e) = cleanup_blocked-Triple []
    clean_owned-Triple (done temps) = here-Triple _ (λ c.
        bind-Triple _ _ (unfailing-Triple none _ (attempt-Quiet _ internal_temps-Quiet))
          (λ internal. remove_temps-Triple _ internal))

    clean_temps-Triple : (path : Text) → Checks none (clean_temps p attempt_id path)
    unfolding clean_temps
    clean_temps-Triple path =
        bind-Triple _ _ (unfailing-Triple none _ (attempt-Quiet _ (in_world-Quiet _)))
          (λ temps. clean_owned-Triple temps)

    unless_failed-Triple :
        (outcome : Option PrimaryOutcome) (next : Step W (Option PrimaryOutcome))
        → Checks none next
        → Checks outcome (unless_failed p attempt_id outcome next)
    unfolding unless_failed
    unless_failed-Triple none next k = k
    unless_failed-Triple (some outcome) next k = record { holds = λ c h. h }

    reply_with-Answers :
        (outcome : Option PrimaryOutcome) (o : Option Document) (c : Cell W)
        → At outcome c
        → c.store.document ≡ o
        → Post
            (λ r d. Answers r d.store)
            Anything
            (reply_with p attempt_id identity outcome o c).0
            (reply_with p attempt_id identity outcome o c).1
    unfolding reply_with
    reply_with-Answers outcome none c h is = tt
    reply_with-Answers outcome (some d) c ((path, fingerprint, own), barred) is =
        let (named, revision) = subst (Owned c.store.document_id) is own in
        (path, fingerprint, refl, refl, barred, (d, is, refl, refl, named, revision))

    reply_opened-Triple :
        (outcome : Option PrimaryOutcome)
        → Triple
            (At outcome)
            (reply_opened p attempt_id identity outcome)
            (λ r c. Answers r c.store)
            Anything
    unfolding reply_opened
    reply_opened-Triple outcome = record {
      holds = λ c h. reply_with-Answers outcome c.store.document c h refl;
    }

  open_parsed-Triple :
      (captured : CapturedFile) (result : ParseResult)
      → parse_document p.engine.host captured.bytes ≡ result
      → Triple
          (λ c. Unit)
          (open_parsed p attempt_id captured result)
          (λ r c. Answers r c.store)
          (λ c. Unit)
  unfolding open_parsed opened
  open_parsed-Triple captured (invalid_utf8 x) is = record { holds = λ c h. tt }
  open_parsed-Triple captured (parsed d) is =
      let identity = captured.identity in
      bind-Triple _ _
        (then-Triple {Q = λ c. HoldsFile identity c.store}
          (record {
            holds = λ c h.
                (refl, refl, (refl, parse_document-IsRevision p.engine.host captured.bytes d is));
          })
          (weaken-Triple (λ c h. h) (λ x c h. h) (λ c h. tt)
            (Quiet-Triple (HoldsFile identity) _ (attempt-Quiet _ (load_journal-Quiet p _)))))
        (λ loaded. bind-Triple _ _ (adopt_journal-Triple identity loaded) (λ first.
          bind-Triple _ _ (unless_failed-Triple identity first _ (check_recovery-Triple identity _))
            (λ second.
              bind-Triple _ _
                (unless_failed-Triple identity second _ (clean_temps-Triple identity _))
                (λ third.
                  then-Triple {Q = λ c. Loaded identity third c.store} (record { holds = λ c h. h })
                    (reply_opened-Triple identity third)))))

  open_file-Triple :
      (path : Text)
      → Triple (λ c. Unit) (open_file p attempt_id path) (λ r c. Answers r c.store) (λ c. Unit)
  unfolding open_file
  open_file-Triple path =
      bind-Triple {Q = λ x c. Unit} _ _
        (then-Triple {Q = λ c. Unit} (record { holds = λ c h. tt })
          (record { holds = λ c h. any _ _ }))
        (λ captured. open_parsed-Triple captured _ refl)
    where
      any : {A : Type 0} (r : Attempt A) (c : Cell W) → Post (λ x d. Unit) (λ d. Unit) r c
      any (done x) c = tt
      any (threw e) c = tt

  -- When a file is opened, the reply is true of the store: the path, the save token and the recovery
  -- record are the store's, and its document is the one that is sent, a revision that describes its
  -- own bytes under the store's own identity. Saving is barred exactly if the reply shows why: an
  -- outcome that says what was found wrong, or a record to recover.
  pub open_file-Answers :
      (path : Text) (c : Cell W) (r : OpenReply)
      → (open_file p attempt_id path c).0 ≡ done r
      → Answers r (open_file p attempt_id path c).1.store
  open_file-Answers path c r is =
      subst
        (λ (x : Attempt OpenReply).
          Post (λ y d. Answers y d.store) (λ d. Unit) x (open_file p attempt_id path c).1)
        is ((open_file-Triple path).holds c tt)
