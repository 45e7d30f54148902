-- ===== src/FileTruth/Store/History/Openings.antt =====
-- The opening of a file leaves a store consistent, whatever was there before.
use noto.Common.{
  ℕ, ◌≡◌, refl, inl, inr, true, false, not, ◌||◌, Option, none, some, List, [], ltb, Bool-cases,
  is_some, nat_eq, bool_eq, list_eq, length, Text,
}
use noto.Document.{ParseResult, parsed, invalid_utf8, parse_document}
use noto.Document.Named.{parse_document-IsRevision}
use noto.FileTruth.{PrimaryOutcome, Stage, AcceptedFileIdentity, recovery_failed}
use noto.FileTruth.Platform.{Platform, done, threw, Attempt, Journal, CapturedFile}
use noto.FileTruth.Store.{Document, change, Cell, Step, Store, ◌>>=◌, ◌>>◌, pure}
use noto.FileTruth.Store.Triples.{
  Stays, bind-Triple, then-Triple, here-Triple, attempt-Stays, if-Triple,
}
use noto.FileTruth.Store.Steps.{fail_with, existing}
use noto.FileTruth.Store.Quiet.{existing-Quiet, load_journal-Quiet}
use noto.FileTruth.Store.Recovering.{is_candidate}
use noto.FileTruth.Store.Opening.{
  check_journal, reply_with, opened, closed, adopt_journal, check_orphans, project_parsed,
  try_project, after_projection, check_recovery, cleanup_blocked, after_removals, remove_temps,
  clean_owned, clean_temps, unless_failed, reply_opened, open_parsed, open_file, is_busy,
  adopt_path,
}
use noto.FileTruth.Store.Opening.Answers.{remove_all-Quiet, internal_temps-Quiet}
use noto.FileTruth.Store.History.{Bars, IsConsistent}
use noto.FileTruth.Store.History.Steps.{
  Sound, change-Sound, Quiet-Sound, world-Sound, pure-Sound, fail_with-Sound, block-Sound,
}

loaded-Bars : (journal : Option Journal) → Bars journal (is_some journal)
loaded-Bars none = tt
loaded-Bars (some journal) = refl

module _ {W : Type 0} (p : Platform W) (attempt_id : Text) (id : Text) where
  abbrev Free : Cell W → Type 0
  Free = Sound p.engine.host id false

  failed-Free :
      (stage : Stage) (recovery : Option Journal) (residue : List Text)
      → Stays Free (
          fail_with p recovery_failed attempt_id stage recovery residue >>= λ first.
          pure (some first))
  failed-Free stage recovery residue =
      bind-Triple _ _ (fail_with-Sound p _ _ _ _ _) (λ first. pure-Sound _)

  -- A check that fails bars saving and names what is there.
  barred-Free :
      (paths : List Text) (f : List Text → Step W (Option PrimaryOutcome))
      → ((residue : List Text) → Stays Free (f residue))
      → Stays Free (change (λ s. record s { recovery_blocked = true }) >> (existing p paths >>= f))
  barred-Free paths f k =
      then-Triple (block-Sound p) (bind-Triple _ _ (Quiet-Sound (existing-Quiet p paths)) k)

  adopt_journal-Free :
      (loaded : Attempt (Option Journal)) → Stays Free (adopt_journal p attempt_id loaded)
  unfolding adopt_journal
  adopt_journal-Free (done journal) =
      then-Triple (change-Sound _ (λ s (x, y, z, k). (x, y, z, loaded-Bars journal))) (pure-Sound _)
  adopt_journal-Free (threw e) =
      then-Triple (change-Sound _ (λ s (x, y, z, k). (x, y, z, tt))) (failed-Free _ _ _)

  check_orphans-Free : (path : Text) → Stays Free (check_orphans p attempt_id path)
  unfolding check_orphans
  check_orphans-Free path = bind-Triple _ _ (world-Sound _) (λ orphaned.
      if-Triple (ltb 0 (length orphaned)) _ _ (then-Triple (block-Sound p) (failed-Free _ _ _))
        (pure-Sound _))

  project_parsed-Free :
      (bytes : List ℕ) (result : ParseResult)
      → parse_document p.engine.host bytes ≡ result
      → Stays Free (project_parsed p attempt_id result)
  unfolding project_parsed
  project_parsed-Free bytes (invalid_utf8 x) is = record { holds = λ c h. h }
  project_parsed-Free bytes (parsed d) is =
      change-Sound _
        (λ s (x, y, z, k). (x, y, (x, parse_document-IsRevision p.engine.host bytes d is), k))

  try_project-Free : (journal : Journal) → Stays Free (try_project p attempt_id journal)
  unfolding try_project
  try_project-Free journal = bind-Triple _ _ (world-Sound _) (λ bytes.
      if-Triple (is_candidate p attempt_id journal bytes) _ _ (project_parsed-Free bytes _ refl)
        (record { holds = λ c h. h }))

  after_projection-Free :
      (journal : Journal) (projected : Attempt Unit)
      → Stays Free (after_projection p attempt_id journal projected)
  unfolding after_projection
  after_projection-Free journal (done x) = pure-Sound _
  after_projection-Free journal (threw e) = barred-Free _ _ (λ residue. failed-Free _ _ residue)

  check_journal-Free :
      (path : Text) (journal : Option Journal)
      → Stays Free (check_journal p attempt_id path journal)
  unfolding check_journal
  check_journal-Free path none = check_orphans-Free path
  check_journal-Free path (some journal) =
      bind-Triple _ _ (attempt-Stays _ (try_project-Free journal))
        (λ projected. after_projection-Free journal projected)

  check_recovery-Free : (path : Text) → Stays Free (check_recovery p attempt_id path)
  unfolding check_recovery
  check_recovery-Free path = here-Triple _ (λ c. check_journal-Free path c.store.recovery)

  cleanup_blocked-Free :
      (candidates : List Text) → Stays Free (cleanup_blocked p attempt_id candidates)
  unfolding cleanup_blocked
  cleanup_blocked-Free candidates =
      here-Triple _ (λ c. barred-Free _ _ (λ residue. failed-Free _ _ residue))

  after_removals-Free :
      (candidates : List Text) (removed : Attempt Unit)
      → Stays Free (after_removals p attempt_id candidates removed)
  unfolding after_removals
  after_removals-Free candidates (done x) = pure-Sound _
  after_removals-Free candidates (threw e) = cleanup_blocked-Free candidates

  remove_temps-Free :
      (owned : List Text) (internal : Attempt (List Text))
      → Stays Free (remove_temps p attempt_id owned internal)
  unfolding remove_temps
  remove_temps-Free owned (threw e) = cleanup_blocked-Free owned
  remove_temps-Free owned (done internal) =
      bind-Triple _ _ (attempt-Stays _ (Quiet-Sound (remove_all-Quiet p attempt_id _)))
        (λ removed. after_removals-Free _ removed)

  clean_owned-Free : (temps : Attempt (List Text)) → Stays Free (clean_owned p attempt_id temps)
  unfolding clean_owned
  clean_owned-Free (threw e) = cleanup_blocked-Free []
  clean_owned-Free (done temps) = here-Triple _ (λ c.
      bind-Triple _ _ (attempt-Stays _ (Quiet-Sound (internal_temps-Quiet p attempt_id)))
        (λ internal. remove_temps-Free _ internal))

  clean_temps-Free : (path : Text) → Stays Free (clean_temps p attempt_id path)
  unfolding clean_temps
  clean_temps-Free path =
      bind-Triple _ _ (attempt-Stays _ (world-Sound _)) (λ temps. clean_owned-Free temps)

  unless_failed-Free :
      (outcome : Option PrimaryOutcome) (next : Step W (Option PrimaryOutcome))
      → Stays Free next
      → Stays Free (unless_failed p attempt_id outcome next)
  unfolding unless_failed
  unless_failed-Free none next k = k
  unless_failed-Free (some outcome) next k = pure-Sound _

  reply_with-Free :
      (identity : AcceptedFileIdentity) (outcome : Option PrimaryOutcome) (o : Option Document)
      → Stays Free (reply_with p attempt_id identity outcome o)
  unfolding reply_with
  reply_with-Free identity outcome none = record { holds = λ c h. h }
  reply_with-Free identity outcome (some d) = here-Triple _ (λ c. pure-Sound _)

  reply_opened-Free :
      (identity : AcceptedFileIdentity) (outcome : Option PrimaryOutcome)
      → Stays Free (reply_opened p attempt_id identity outcome)
  unfolding reply_opened
  reply_opened-Free identity outcome =
      here-Triple _ (λ c. reply_with-Free identity outcome c.store.document)

  open_parsed-Free :
      (captured : CapturedFile) (result : ParseResult)
      → parse_document p.engine.host captured.bytes ≡ result
      → Stays Free (open_parsed p attempt_id captured result)
  unfolding open_parsed opened
  open_parsed-Free captured (invalid_utf8 x) is = record { holds = λ c h. h }
  open_parsed-Free captured (parsed d) is =
      let revision = parse_document-IsRevision p.engine.host captured.bytes d is in
      bind-Triple _ _
        (then-Triple (change-Sound _ (λ s (x, y, z, k). (x, y, (x, revision), k)))
          (attempt-Stays _ (Quiet-Sound (load_journal-Quiet p _))))
        (λ loaded. bind-Triple _ _ (adopt_journal-Free loaded) (λ first.
          bind-Triple _ _ (unless_failed-Free first _ (check_recovery-Free _)) (λ second.
            bind-Triple _ _ (unless_failed-Free second _ (clean_temps-Free _))
              (λ third. then-Triple (change-Sound _ (λ s h. h)) (reply_opened-Free _ third)))))

  pub open_file-Sound : (path : Text) → Stays Free (open_file p attempt_id path)
  unfolding open_file closed
  open_file-Sound path =
      bind-Triple _ _
        (then-Triple (change-Sound _ (λ s (x, y, z, k). (x, y, tt, tt))) (world-Sound _))
        (λ captured. open_parsed-Free captured _ refl)

-- A new name of the file leaves it so as well.
pub adopt_path-IsConsistent :
    {W : Type 0} (p : Platform W) (id next : Text) (s : Store)
    → IsConsistent p.engine.host id false s
    → IsConsistent p.engine.host id false (adopt_path next s).1
unfolding adopt_path
adopt_path-IsConsistent p id next s h =
    elim (Bool-cases (not (is_some s.accepted_path) || is_busy s)) [
      | inl busy ↦ rw (busy, adopt_path) h
      | inr free ↦ rw (free, adopt_path) h
    ]
