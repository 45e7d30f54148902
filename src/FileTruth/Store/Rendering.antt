-- ===== src/FileTruth/Store/Rendering.antt =====
-- `saveForRenderer` and `currentDocument` of file-truth-store.ts: what the renderer receives of a save.
use mathlib.Core.Path.{subst}
use noto.Common.{
  ◌≡◌, refl, sym, ap, ◌∙◌, Bool, true, Option, none, some, if◌then◌else◌, ◌==◌, nat_eq, bool_eq,
  list_beq_iff, list_eq, Text,
}
use noto.Contracts.{Document, DocumentWire, RevisionPatch}
use noto.Document.{to_wire}
use noto.Revision.Build.{revision_patch}
use noto.FileTruth.{
  OutcomeBase, Residue, AcceptedFileIdentity, SaveToken, SaveOutcome, primary, cleanup_failed,
  saved, copy_saved, external_conflict, stale_editor_revision, failure, SavedOutcome,
  accepted_save_outcome,
}
use noto.FileTruth.Platform.{Attempt, done, Platform}
use noto.FileTruth.Store.{Store, EditCandidate, Cell, Step, ◌>>=◌}
use noto.FileTruth.Store.Saving.{revision_named, save}
use noto.FileTruth.Store.Saving.Settled.{Reported, Advanced}
use noto.FileTruth.Store.Saving.Carried.{bind_done}
use noto.FileTruth.Store.Saving.Outcome.{save-Reported}

pub record SavedPatch : Type 0 where
  pub base : OutcomeBase
  pub accepted : AcceptedFileIdentity
  pub save_token : SaveToken
  pub output_sha256 : Text
  pub document_patch : RevisionPatch

pub data SaveReply : Type 0 where
  as_outcome : SaveOutcome → SaveReply
  saved_patch : SavedPatch → SaveReply
  cleanup_failed_patch : OutcomeBase → SavedPatch → Residue → SaveReply

abbrev pub with_patch : Document → Document → SavedOutcome → SavedPatch
with_patch base next o = record {
  base = o.base;
  accepted = o.accepted;
  save_token = o.save_token;
  output_sha256 = o.output_sha256;
  document_patch = revision_patch base next;
}

abbrev pub ends_on : Document → SavedOutcome → Bool
ends_on next o = o.document.revision_id == next.revision_id

unfoldable pub patched : Document → Document → SaveOutcome → SaveReply
patched base next (primary (saved o)) =
    if ends_on next o then saved_patch (with_patch base next o) else as_outcome (primary (saved o))
patched base next (cleanup_failed b (saved o) residue) =
    if ends_on next o
    then cleanup_failed_patch b (with_patch base next o) residue
    else as_outcome (cleanup_failed b (saved o) residue)
patched base next outcome = as_outcome outcome

-- By the documents of the store before the save and after it.
unfoldable pub reply_for :
    EditCandidate → Option Document → Option Document → SaveOutcome → SaveReply
reply_for candidate (some base) (some next) outcome =
    if base.revision_id == revision_named candidate.transaction
    then patched base next outcome
    else as_outcome outcome
reply_for candidate _ _ outcome = as_outcome outcome

-- The document of a saved outcome, if the store still holds that revision; nothing for the error
-- STALE_REVISION.
unfoldable pub current_document : Store → Text → Option DocumentWire
current_document s revision_id = elim s.document [
  | none ↦ none
  | some d ↦ if d.revision_id == revision_id then some (to_wire d) else none
]

-- What is sent for a saved outcome: its fields, and the patch from the first document to the second.
abbrev pub IsPatch : Document → Document → SavedOutcome → SavedPatch → Type 0
IsPatch base next o x =
    (x.base ≡ o.base)
    × (x.accepted ≡ o.accepted)
    × (x.save_token ≡ o.save_token)
    × (x.output_sha256 ≡ o.output_sha256)
    × (x.document_patch ≡ revision_patch base next)

-- A reply that sends a patch between the two documents in place of the revision.
abbrev pub Sends : Document → Document → SavedOutcome → SaveReply → Type 0
Sends base next o (as_outcome outcome) = ⊥
Sends base next o (saved_patch x) = IsPatch base next o x
Sends base next o (cleanup_failed_patch b x residue) = IsPatch base next o x

ends_on-to_wire : (d : Document) (o : SavedOutcome) → o.document ≡ to_wire d → ends_on d o ≡ true
unfolding to_wire
ends_on-to_wire d o h =
    (list_beq_iff o.document.revision_id d.revision_id).1 (ap (λ w. w.revision_id) h)

patched-Sends :
    (base next : Document) (o : SavedOutcome) (outcome : SaveOutcome)
    → accepted_save_outcome outcome ≡ some o
    → ends_on next o ≡ true
    → Sends base next o (patched base next outcome)
unfolding patched accepted_save_outcome
patched-Sends base next o (primary (saved x)) h k =
    let same : x ≡ o = cc in
    subst (λ (y : SavedOutcome). Sends base next y (patched base next (primary (saved x)))) same
      (rw (subst (λ (y : SavedOutcome). ends_on next y ≡ true) (sym same) k, patched)
        (refl, refl, refl, refl, refl))
patched-Sends base next o (cleanup_failed b (saved x) residue) h k =
    let same : x ≡ o = cc in
    subst
      (λ (y : SavedOutcome).
        Sends base next y (patched base next (cleanup_failed b (saved x) residue)))
      same
      (rw (subst (λ (y : SavedOutcome). ends_on next y ≡ true) (sym same) k, patched)
        (refl, refl, refl, refl, refl))
patched-Sends base next o (primary (copy_saved x)) h k = absurd (cc)
patched-Sends base next o (primary (external_conflict x)) h k = absurd (cc)
patched-Sends base next o (primary (stale_editor_revision x)) h k = absurd (cc)
patched-Sends base next o (primary (failure x)) h k = absurd (cc)
patched-Sends base next o (cleanup_failed b (copy_saved x) residue) h k = absurd (cc)
patched-Sends base next o (cleanup_failed b (external_conflict x) residue) h k = absurd (cc)
patched-Sends base next o (cleanup_failed b (stale_editor_revision x) residue) h k = absurd (cc)
patched-Sends base next o (cleanup_failed b (failure x) residue) h k = absurd (cc)

reply_for-Sends :
    (candidate : EditCandidate) (base next : Document) (held after : Option Document)
    (o : SavedOutcome) (outcome : SaveOutcome)
    → held ≡ some base
    → after ≡ some next
    → base.revision_id ≡ revision_named candidate.transaction
    → accepted_save_outcome outcome ≡ some o
    → ends_on next o ≡ true
    → Sends base next o (reply_for candidate held after outcome)
unfolding reply_for
reply_for-Sends candidate base next held after o outcome h k named was ends =
    let same = (list_beq_iff base.revision_id (revision_named candidate.transaction)).1 named in
    rw (h, k, reply_for, same) (patched-Sends base next o outcome was ends)

module _ {W : Type 0} (p : Platform W) (attempt_id : Text) where
  unfoldable pub save_for_renderer : EditCandidate → Step W SaveReply
  save_for_renderer candidate c =
      (save p attempt_id candidate >>= λ outcome.
      λ after. (done (reply_for candidate c.store.document after.store.document outcome), after))
        c

  renderer_reply :
      (candidate : EditCandidate) (c : Cell W) (outcome : SaveOutcome)
      → (save p attempt_id candidate c).0 ≡ done outcome
      → save_for_renderer candidate c ≡ (
        done (
            reply_for candidate c.store.document
              (save p attempt_id candidate c).1.store.document
              outcome),
        (save p attempt_id candidate c).1,
      )
  unfolding save_for_renderer
  renderer_reply candidate c outcome is =
      bind_done p (save p attempt_id candidate)
        (λ outcome. λ after.
          (done (reply_for candidate c.store.document after.store.document outcome), after))
        c outcome is

  -- A save of the revision that the store holds, which says that the file was saved, even where the
  -- cleanup failed after it, is sent to the renderer as the patch from that revision to the one that
  -- the store holds now, which is the one that the outcome names; it is never sent whole.
  pub save_for_renderer-Sends :
      (candidate : EditCandidate) (c : Cell W) (base : Document) (outcome : SaveOutcome)
      (o : SavedOutcome)
      → c.store.document ≡ some base
      → base.revision_id ≡ revision_named candidate.transaction
      → (save p attempt_id candidate c).0 ≡ done outcome
      → accepted_save_outcome outcome ≡ some o
      → (reply : SaveReply) × (next : Document) × ((save_for_renderer candidate c).0 ≡ done reply)
        × ((save_for_renderer candidate c).1.store.document ≡ some next)
        × (o.save_token.document_revision_id ≡ next.revision_id)
        × Sends base next o reply
  unfolding save_for_renderer ◌>>=◌ reply_for
  save_for_renderer-Sends candidate c base outcome o held named is was =
      let after = (save p attempt_id candidate c).1 in
      let told = save-Reported p attempt_id candidate c in
      let advanced = subst (λ (x : Attempt SaveOutcome). Reported c.store x after.store) is told in
      let (_, _, _, _, (next, there, revision, sent)) =
        subst (λ (x : Option SavedOutcome). Advanced c.store x after.store) was advanced in
      (
        reply_for candidate c.store.document after.store.document outcome,
        next,
        ap (λ (x : Attempt SaveReply × Cell W). x.0) (renderer_reply candidate c outcome is),
        ap (λ (x : Attempt SaveReply × Cell W). x.1.store.document)
              (renderer_reply candidate c outcome is)
            ∙ there,
        revision,
        reply_for-Sends candidate base next c.store.document after.store.document o outcome held
            there named was (ends_on-to_wire next o sent),
      )
