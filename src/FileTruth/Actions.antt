-- ===== src/FileTruth/Actions.antt =====
-- What the reader is offered after a save.
use noto.Common.{◌≡◌, refl, Bool, true, false, ◌&&◌, ◌||◌, List, [], ◌∷◌, arith, nat_eq, list_eq}
use noto.FileTruth.{
  FailureStatus, SaveOutcome, primary, cleanup_failed, saved, copy_saved, external_conflict,
  stale_editor_revision, failure, dirty_preserved, present_outcome, present_failure, UiState,
  Action, save_copy, file_truth_actions, plain_actions,
}

present_failure-dirty : (s : FailureStatus) → (present_failure s).1 ≡ true
unfolding present_failure
present_failure-dirty s = ground arith

-- The renderer shows the editor as dirty after a save exactly when the outcome promises that the
-- edits are still there: only a save without any failure makes it clean.
pub present_outcome-dirty_preserved : (o : SaveOutcome) → (present_outcome o).1 ≡ dirty_preserved o
unfolding present_outcome dirty_preserved
present_outcome-dirty_preserved (primary (saved o)) = refl
present_outcome-dirty_preserved (primary (copy_saved o)) = refl
present_outcome-dirty_preserved (primary (external_conflict o)) = refl
present_outcome-dirty_preserved (primary (stale_editor_revision o)) = refl
present_outcome-dirty_preserved (primary (failure o)) = present_failure-dirty o.status
present_outcome-dirty_preserved (cleanup_failed b o r) = refl

abbrev is_save_copy : Action → Bool
is_save_copy save_copy = true
is_save_copy _ = false

-- Saving a copy is among the actions.
abbrev pub offers_copy : List Action → Bool
offers_copy [] = false
offers_copy (a ∷ actions) = is_save_copy a || offers_copy actions

abbrev pub offers_any : List Action → Bool
offers_any [] = false
offers_any (a ∷ actions) = true

-- In every state, whether or not a recovery is in the way: saving a copy is offered exactly when the
-- editor is dirty and something is offered at all, so no offer leaves unsaved text without a way out.
pub file_truth_actions-offers_copy :
    (state : UiState) (dirty barrier : Bool)
    → offers_copy (file_truth_actions state dirty barrier)
      ≡ (dirty && offers_any (file_truth_actions state dirty barrier))
unfolding file_truth_actions plain_actions
file_truth_actions-offers_copy state true true = refl
file_truth_actions-offers_copy state false true = refl
file_truth_actions-offers_copy state true false = ground arith
file_truth_actions-offers_copy state false false = ground arith
