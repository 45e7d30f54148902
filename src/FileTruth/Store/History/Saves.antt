-- ===== src/FileTruth/Store/History/Saves.antt =====
-- A save, and a copy, leave a store consistent.
use noto.Common.{
  ℕ, ◌≡◌, refl, ◌∙◌, inl, inr, Bool, true, false, not, ◌&&◌, ◌||◌, Option, none, some, List,
  if◌then◌else◌, Option-cases, is_some, nat_eq, bool_eq, list_eq, Text,
}
use mathlib.Core.Path.{subst}
use noto.Contracts.{Document, TransactionWire}
use noto.Revision.Transaction.{expand_transaction}
use noto.Serialize.{Serialized}
use noto.Serialize.Save.{serialize_document}
use noto.Serialize.Save.Sound.{IsSound, serialize_document-IsSound}
use noto.FileTruth.{FileFingerprint, AcceptedFileIdentity}
use noto.FileTruth.Platform.{
  Platform, Journal, Attempt, done, threw, Problem, same_fingerprint, Replacement, replaced,
  conflicted,
}
use noto.FileTruth.Store.{EditCandidate, Cell}
use noto.Serialize.Save.Guards.{result_cases}
use noto.FileTruth.Store.Triples.{
  option-Triple, Stays, bind-Triple, then-Triple, catch-Triple, here-Triple, attempt-Stays,
  if-Triple,
}
use noto.FileTruth.Store.Quiet.{existing-Quiet, load_journal-Quiet}
use noto.FileTruth.Store.Steps.{serialize_candidate}
use noto.FileTruth.Store.Saving.{
  Accepted, accepted_of, is_stale, prepare, publish, verify, commit, accept_saved, after_publish,
  replace_file, try_save, close_temp, report, handle_problem, save_serialized, save_open,
  save_accepted, save_locked, save, journal_left, is_error,
}
use noto.FileTruth.Store.History.{Bars, Owns}
use noto.FileTruth.Store.History.Steps.{
  change-at, accepted-Owns, Sound, change-Sound, Quiet-Sound, world-Sound, pure-Sound, reach-Sound,
  hold-Sound, finish-Sound, fail_with-Sound, fail_outcome-Sound, conflict-Sound,
  persist_stage-Sound, cleanup_failure-Sound, cleanup_then-Sound, with_lock-Sound, block-Sound,
}

-- What a candidate is serialized to is of the same document, and describes itself.
serialize_candidate-Owns :
    {W : Type 0} (p : Platform W) (d : Document) (wire : TransactionWire) (out : Serialized)
    (id : Text)
    → Owns p.engine.host id (some d)
    → serialize_candidate p d wire ≡ some out
    → Owns p.engine.host id (some out.document)
unfolding serialize_candidate
serialize_candidate-Owns p d wire out id (named, known) is =
    elim (Option-cases (expand_transaction wire d)) [
      | inl h ↦ absurd (cc (rw (h, serialize_candidate) at is))
      | inr (t, h) ↦ elim (result_cases (serialize_document p.engine d t)) [
        | inl (code, bytes, k) ↦ absurd (cc (rw (h, serialize_candidate, k) at is))
        | inr (s, k) ↦
            let same : s ≡ out = cc (rw (h, serialize_candidate, k) at is) in
            let (_, kept, revision) =
              subst (IsSound p.engine d) k (serialize_document-IsSound p.engine d known t) in
            subst (λ (x : Serialized). Owns p.engine.host id (some x.document)) same
              (kept ∙ named, revision)
      ]
    ]

module _ {W : Type 0} (p : Platform W) (attempt_id : Text) (id : Text) where
  abbrev Locked : Cell W → Type 0
  Locked = Sound p.engine.host id true

  module _ (a : Accepted) (out : Serialized) (mode : ℕ) where
    prepare-Locked : (journal : Journal) → Stays Locked (prepare p attempt_id a out mode journal)
    unfolding prepare
    prepare-Locked journal =
        then-Triple
          (then-Triple
            (then-Triple
              (then-Triple
                (then-Triple
                  (then-Triple
                    (then-Triple
                      (then-Triple
                        (then-Triple
                          (then-Triple
                            (then-Triple
                              (then-Triple
                                (then-Triple (then-Triple (block-Sound p) (world-Sound _))
                                  (world-Sound _))
                                (persist_stage-Sound p journal _))
                              (world-Sound _))
                            (hold-Sound _))
                          (world-Sound _))
                        (persist_stage-Sound p journal _))
                      (world-Sound _))
                    (persist_stage-Sound p journal _))
                  (world-Sound _))
                (persist_stage-Sound p journal _))
              (world-Sound _))
            (hold-Sound _))
          (persist_stage-Sound p journal _)

    publish-Locked : (recreating : Bool) → Stays Locked (publish p attempt_id a out mode recreating)
    unfolding publish
    publish-Locked recreating = if-Triple recreating _ _ (world-Sound _) (world-Sound _)

    verify-Locked : (journal : Journal) → Stays Locked (verify p attempt_id a out mode journal)
    unfolding verify
    verify-Locked journal =
        bind-Triple _ _
          (then-Triple
            (then-Triple (then-Triple (persist_stage-Sound p journal _) (world-Sound _))
              (world-Sound _))
            (world-Sound _))
          (λ identity.
            then-Triple
              (then-Triple (persist_stage-Sound p journal _) (persist_stage-Sound p journal _))
              (pure-Sound _))

    close_temp-Locked :
        (handle : Option Text) → Stays Locked (close_temp p attempt_id a out mode handle)
    close_temp-Locked none = pure-Sound (done tt)
    close_temp-Locked (some handle) = attempt-Stays _ (world-Sound _)

    -- The store is let go only where no record is there.
    unblocked-Bars :
        (kept : Option Journal) (loaded : Attempt (Option Journal)) (clean blocked : Bool)
        → Bars kept blocked
        → Bars kept (
            if not (is_some (journal_left p attempt_id a out mode kept loaded)) && clean
            then false
            else blocked)
    unblocked-Bars none loaded clean blocked h = tt
    unblocked-Bars (some journal) (done none) clean blocked h = h
    unblocked-Bars (some journal) (done (some x)) clean blocked h = h
    unblocked-Bars (some journal) (threw e) clean blocked h = h

    report-Locked :
        (e : Problem) (close_failed : Bool) (loaded : Attempt (Option Journal))
        (residue : List Text)
        → Stays Locked (report p attempt_id a out mode e close_failed loaded residue)
    unfolding report
    report-Locked e close_failed loaded residue = record {
      holds = λ c h.
          let (x, y, z, k) = h.sound in
          change-at _ _ c (x, y, z, unblocked-Bars _ loaded _ _ k)
            (bind-Triple _ _ (fail_with-Sound p _ _ _ _ _) (λ first.
              if-Triple (close_failed || is_error p attempt_id a out mode loaded) _ _
                (cleanup_failure-Sound p _ _) (finish-Sound p _)));
    }

    handle_problem-Locked : (e : Problem) → Stays Locked (handle_problem p attempt_id a out mode e)
    unfolding handle_problem
    handle_problem-Locked e = here-Triple _ (λ c.
        bind-Triple _ _ (close_temp-Locked c.temp_handle) (λ closed.
          bind-Triple _ _ (attempt-Stays _ (Quiet-Sound (load_journal-Quiet p _))) (λ loaded.
            bind-Triple _ _ (Quiet-Sound (existing-Quiet p _))
              (λ residue. report-Locked e _ loaded residue))))

    module _ (own : Owns p.engine.host id (some out.document)) where
      commit-Locked :
          (journal : Journal) (identity : AcceptedFileIdentity)
          → Stays Locked (commit p attempt_id a out mode journal identity)
      unfolding commit accept_saved
      commit-Locked journal identity = here-Triple _ (λ c.
          then-Triple (change-Sound _ (λ s (a, b, d, e). (a, b, own, e)))
            (cleanup_then-Sound p _ _))

      after_publish-Locked :
          (recreating : Bool) (journal : Journal) (replacement : Replacement)
          → Stays Locked (after_publish p attempt_id a out mode recreating journal replacement)
      unfolding after_publish
      after_publish-Locked true journal (conflicted current) =
          then-Triple (change-Sound _ (λ s h. h))
            (bind-Triple _ _ (conflict-Sound p _ _ _ _) (λ first. cleanup_then-Sound p _ _))
      after_publish-Locked false journal (conflicted current) =
          then-Triple (change-Sound _ (λ s h. h))
            (bind-Triple _ _ (conflict-Sound p _ _ _ _) (λ first. cleanup_then-Sound p _ _))
      after_publish-Locked recreating journal replaced =
          bind-Triple _ _ (verify-Locked journal) (λ identity. commit-Locked journal identity)

      replace_file-Locked :
          (current : Option FileFingerprint)
          → Stays Locked (replace_file p attempt_id a out mode current)
      unfolding replace_file
      replace_file-Locked current = here-Triple _ (λ c.
          if-Triple
            (not (c.store.accepted_missing && not (is_some current))
              && not (same_fingerprint (some a.fingerprint) current))
            _ _ (bind-Triple _ _ (conflict-Sound p _ _ _ _) (λ first. finish-Sound p _))
            (bind-Triple _ _ (then-Triple (prepare-Locked _) (publish-Locked _))
              (λ replacement. after_publish-Locked _ _ replacement)))

      try_save-Locked : Stays Locked (try_save p attempt_id a out mode)
      unfolding try_save
      try_save-Locked =
          bind-Triple _ _ (then-Triple (then-Triple (reach-Sound _) (hold-Sound _)) (world-Sound _))
            (λ current. replace_file-Locked current)

      save_serialized-Locked : Stays Locked (save_serialized p attempt_id a out mode)
      unfolding save_serialized
      save_serialized-Locked = catch-Triple _ _ try_save-Locked (λ e. handle_problem-Locked e)

  save_open-Locked :
      (a : Accepted) (candidate : EditCandidate)
      → Owns p.engine.host id (some a.document)
      → Stays Locked (save_open p attempt_id a candidate)
  unfolding save_open
  save_open-Locked a candidate own = here-Triple _ (λ c.
      if-Triple (is_some c.store.recovery || c.store.recovery_blocked) _ _
        (bind-Triple _ _ (Quiet-Sound (existing-Quiet p _))
          (λ residue. fail_outcome-Sound p _ _ _ _ _))
        (if-Triple (is_stale c.store a candidate) _ _ (finish-Sound p _) (
          option-Triple (serialize_candidate p a.document candidate.transaction) _ _
            (fail_outcome-Sound p _ _ _ _ _)
            (λ out is.
              save_serialized-Locked a out _
                (serialize_candidate-Owns p a.document _ out id own is)))))

  save_accepted-Locked :
      (candidate : EditCandidate) (o : Option Accepted)
      → ((a : Accepted) → o ≡ some a → Owns p.engine.host id (some a.document))
      → Stays Locked (save_accepted p attempt_id candidate o)
  unfolding save_accepted
  save_accepted-Locked candidate none own = fail_outcome-Sound p _ _ _ _ _
  save_accepted-Locked candidate (some a) own = save_open-Locked a candidate (own a refl)

  save_locked-Locked :
      (candidate : EditCandidate) → Stays Locked (save_locked p attempt_id candidate)
  unfolding save_locked
  save_locked-Locked candidate = record {
    holds = λ c h.
        (save_accepted-Locked candidate (accepted_of c.store)
            (λ a is. accepted-Owns p.engine.host id c.store a h.sound.2 is)).holds
          c h;
  }

  pub save-Sound :
      (candidate : EditCandidate)
      → Stays (Sound p.engine.host id false) (save p attempt_id candidate)
  unfolding save
  save-Sound candidate = here-Triple _ (λ c.
      if-Triple c.store.transaction_active _ _ (fail_outcome-Sound p _ _ _ _ _)
        (with_lock-Sound p attempt_id (save_locked-Locked candidate)))
