-- ===== src/FileTruth/Store/History/Copies.antt =====
-- A copy leaves a store consistent.
use noto.Common.{ℕ, true, false, Option, none, some, ◌==◌, nat_eq, bool_eq, list_eq, Text}
use noto.Contracts.{Document}
use noto.Serialize.{Serialized}
use noto.FileTruth.Platform.{Platform, Problem, done}
use noto.FileTruth.Store.{EditCandidate, Cell}
use noto.FileTruth.Store.Triples.{
  Stays, bind-Triple, then-Triple, catch-Triple, here-Triple, attempt-Stays, if-Triple,
  option-Triple,
}
use noto.FileTruth.Store.Quiet.{existing-Quiet}
use noto.FileTruth.Store.Steps.{serialize_candidate}
use noto.FileTruth.Store.Copying.{
  original_of, try_copy, close_copy, handle_copy_problem, copy_serialized, copy_open, copy_original,
  save_copy_locked, save_copy,
}
use noto.FileTruth.Store.History.Steps.{
  Sound, Quiet-Sound, world-Sound, pure-Sound, hold-Sound, finish-Sound, fail_outcome-Sound,
  with_lock-Sound,
}

module _ {W : Type 0} (p : Platform W) (attempt_id : Text) (id : Text) where
  abbrev Locked : Cell W → Type 0
  Locked = Sound p.engine.host id true

  module _ (target : Text) (out : Serialized) (mode : ℕ) where
    try_copy-Locked : Stays Locked (try_copy p attempt_id target out mode)
    unfolding try_copy
    try_copy-Locked =
        then-Triple
          (then-Triple
            (then-Triple
              (then-Triple
                (then-Triple
                  (then-Triple
                    (then-Triple
                      (then-Triple (then-Triple (hold-Sound _) (world-Sound _)) (hold-Sound _))
                      (world-Sound _))
                    (world-Sound _))
                  (world-Sound _))
                (world-Sound _))
              (hold-Sound _))
            (world-Sound _))
          (finish-Sound p _)

    close_copy-Locked :
        (handle : Option Text) → Stays Locked (close_copy p attempt_id target out mode handle)
    close_copy-Locked none = pure-Sound (done tt)
    close_copy-Locked (some handle) = attempt-Stays _ (world-Sound _)

    handle_copy_problem-Locked :
        (e : Problem) → Stays Locked (handle_copy_problem p attempt_id target out mode e)
    unfolding handle_copy_problem
    handle_copy_problem-Locked e = here-Triple _ (λ c.
        then-Triple
          (then-Triple (close_copy-Locked c.temp_handle) (attempt-Stays _ (world-Sound _)))
          (bind-Triple _ _ (Quiet-Sound (existing-Quiet p _))
            (λ residue. fail_outcome-Sound p _ _ _ _ _)))

    copy_serialized-Locked : Stays Locked (copy_serialized p attempt_id target out mode)
    unfolding copy_serialized
    copy_serialized-Locked = catch-Triple _ _ try_copy-Locked (λ e. handle_copy_problem-Locked e)

  copy_open-Locked :
      (candidate : EditCandidate) (destination : Text) (d : Document) (original : Text)
      → Stays Locked (copy_open p attempt_id candidate destination d original)
  unfolding copy_open
  copy_open-Locked candidate destination d original = here-Triple _ (λ c.
      if-Triple (p.resolve destination == p.resolve original) _ _ (fail_outcome-Sound p _ _ _ _ _) (
        option-Triple (serialize_candidate p d candidate.transaction) _ _
          (fail_outcome-Sound p _ _ _ _ _)
          (λ out is. copy_serialized-Locked (p.resolve destination) out c.store.accepted_mode)))

  copy_original-Locked :
      (candidate : EditCandidate) (destination : Text) (o : Option (Document × Text))
      → Stays Locked (copy_original p attempt_id candidate destination o)
  unfolding copy_original
  copy_original-Locked candidate destination none = fail_outcome-Sound p _ _ _ _ _
  copy_original-Locked candidate destination (some (d, original)) =
      copy_open-Locked candidate destination d original

  save_copy_locked-Locked :
      (candidate : EditCandidate) (destination : Text)
      → Stays Locked (save_copy_locked p attempt_id candidate destination)
  unfolding save_copy_locked
  save_copy_locked-Locked candidate destination =
      here-Triple _ (λ c. copy_original-Locked candidate destination (original_of c.store))

  pub save_copy-Sound :
      (candidate : EditCandidate) (destination : Text)
      → Stays (Sound p.engine.host id false) (save_copy p attempt_id candidate destination)
  unfolding save_copy
  save_copy-Sound candidate destination = here-Triple _ (λ c.
      if-Triple c.store.transaction_active _ _ (fail_outcome-Sound p _ _ _ _ _)
        (with_lock-Sound p attempt_id (save_copy_locked-Locked candidate destination)))
