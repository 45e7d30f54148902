-- ===== src/FileTruth/Store/Copying.antt =====
-- `saveCopy` and `saveCopyLocked` of file-truth-store.ts: the candidate goes to a temporary file beside
-- another path, and is published there only if nothing is there.
pub mod Apart
use noto.Common.{
  ℕ, ◌+◌, ◌-◌, Option, none, some, [], ◌∷◌, ◌++◌, map, if◌then◌else◌, ◌==◌, nat_eq, bool_eq,
  list_eq, Text, codes,
}
use noto.Contracts.{Document}
use noto.Serialize.{Serialized}
use noto.FileTruth.{
  before_temp_write, replacement_verified, SaveOutcome, primary, copy_saved, write_failed,
  replacement_failed, serialization_failed,
}
use noto.FileTruth.Platform.{Attempt, done, Problem, Platform}
use noto.FileTruth.Store.{
  Store, EditCandidate, Step, pure, ◌>>=◌, ◌>>◌, in_world, hold, attempt, catch,
}
use noto.FileTruth.Store.Steps.{finish, fail_outcome, residue_evidence, serialize_candidate}
use noto.FileTruth.Store.Saving.{with_lock}

-- What a copy is made of: the document and the path of the original.
abbrev pub original_of : Store → Option (Document × Text)
original_of s = elim s.document [
  | none ↦ none
  | some d ↦ elim s.accepted_path [ none ↦ none | some path ↦ some (d, path) ]
]

module _ {W : Type 0} (p : Platform W) (attempt_id : Text) where
  module _ (target : Text) (out : Serialized) (mode : ℕ) where
    abbrev pub copy_temp : Text
    copy_temp = p.temp_path_for target (attempt_id ++ codes "-copy")

    -- The body of the `try`.
    unfoldable pub try_copy : Step W SaveOutcome
    try_copy =
        hold none
        >> in_world (p.create_exclusive_temp copy_temp)
        >> hold (some copy_temp)
        >> in_world (p.write_temp copy_temp out.output_bytes)
        >> in_world (p.flush copy_temp)
        >> in_world (p.apply_and_verify_mode copy_temp mode)
        >> in_world (p.close_handle copy_temp)
        >> hold none
        >> in_world (p.publish_exclusive copy_temp target out.output_bytes mode)
        >> finish p (
            primary (
              copy_saved (record {
                base = record { attempt_id = attempt_id; safe_stage = replacement_verified };
                destination_path = target;
                output_sha256 = out.output_sha256;
              })))

    abbrev pub close_copy : Option Text → Step W (Attempt Unit)
    close_copy none = pure (done tt)
    close_copy (some handle) = attempt (in_world (p.close_handle handle))

    -- The body of the `catch`.
    unfoldable pub handle_copy_problem : Problem → Step W SaveOutcome
    handle_copy_problem e c =
        (close_copy c.temp_handle
            >> attempt (in_world (p.remove_without_injection copy_temp))
            >> (residue_evidence p
                  (some copy_temp ∷ some target ∷ map (λ x. some x) e.residue_paths)
                >>= λ residue.
                    fail_outcome p write_failed attempt_id before_temp_write none residue))
          c

    unfoldable pub copy_serialized : Step W SaveOutcome
    copy_serialized = catch try_copy handle_copy_problem

  unfoldable pub copy_open : EditCandidate → Text → Document → Text → Step W SaveOutcome
  copy_open candidate destination d original c =
      (if p.resolve destination == p.resolve original
          then fail_outcome p replacement_failed attempt_id before_temp_write none []
          else (elim (serialize_candidate p d candidate.transaction) [
            | none ↦ fail_outcome p serialization_failed attempt_id before_temp_write none []
            | some out ↦ copy_serialized (p.resolve destination) out c.store.accepted_mode
          ]))
        c

  unfoldable pub copy_original :
      EditCandidate → Text → Option (Document × Text) → Step W SaveOutcome
  copy_original candidate destination none =
      fail_outcome p write_failed attempt_id before_temp_write none []
  copy_original candidate destination (some (d, original)) =
      copy_open candidate destination d original

  unfoldable pub save_copy_locked : EditCandidate → Text → Step W SaveOutcome
  unfolding copy_original
  save_copy_locked candidate destination c =
      copy_original candidate destination (original_of c.store) c

  unfoldable pub save_copy : EditCandidate → Text → Step W SaveOutcome
  save_copy candidate destination c =
      (if c.store.transaction_active
          then fail_outcome p write_failed attempt_id before_temp_write c.store.recovery []
          else with_lock p attempt_id (save_copy_locked candidate destination))
        c
