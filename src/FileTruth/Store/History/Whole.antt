-- ===== src/FileTruth/Store/History/Whole.antt =====
-- The whole life of a store.
use noto.Common.{refl, false, nat_eq, bool_eq, list_eq, Text}
use noto.FileTruth.Platform.{Platform}
use noto.FileTruth.Store.{Cell}
use noto.FileTruth.Store.History.{
  IsConsistent, Operation, opening, saving, copying, recovering, looking, reloading, adopting,
  perform, History, began, performed, elsewhere,
}
use noto.FileTruth.Store.History.Steps.{Sound, after-Stays}
use noto.FileTruth.Store.History.Saves.{save-Sound}
use noto.FileTruth.Store.History.Copies.{save_copy-Sound}
use noto.FileTruth.Store.History.Recoveries.{recover-Sound}
use noto.FileTruth.Store.History.Openings.{open_file-Sound, adopt_path-IsConsistent}
use noto.FileTruth.Store.History.Watches.{check_external_change-Sound, reload-Sound}

module _ {W : Type 0} (p : Platform W) (id : Text) where
  perform-Sound :
      (operation : Operation) (attempt_id : Text) (c : Cell W)
      → Sound p.engine.host id false c
      → Sound p.engine.host id false (perform p operation attempt_id c)
  perform-Sound (opening path) attempt_id c h =
      after-Stays _ _ c (open_file-Sound p attempt_id id path) h
  perform-Sound (saving candidate) attempt_id c h =
      after-Stays _ _ c (save-Sound p attempt_id id candidate) h
  perform-Sound (copying candidate destination) attempt_id c h =
      after-Stays _ _ c (save_copy-Sound p attempt_id id candidate destination) h
  perform-Sound recovering attempt_id c h = after-Stays _ _ c (recover-Sound p attempt_id id) h
  perform-Sound looking attempt_id c h = after-Stays _ _ c (check_external_change-Sound p id) h
  perform-Sound reloading attempt_id c h = after-Stays _ _ c (reload-Sound p id) h
  perform-Sound (adopting path) attempt_id c h = record {
    sound = adopt_path-IsConsistent p id path c.store h.sound;
  }

  History-Sound : (c : Cell W) → History p id c → Sound p.engine.host id false c
  History-Sound _ (began w) = record { sound = (refl, refl, tt, tt) }
  History-Sound _ (performed operation attempt_id c before) =
      perform-Sound operation attempt_id c (History-Sound c before)
  History-Sound _ (elsewhere w c before) = record { sound = (History-Sound c before).sound }

  -- However a store was used, by whatever operations one after another, whatever the platform answered
  -- and wherever it failed, and whatever other hands did between them: no transaction is left active;
  -- a document that the store holds is a revision that describes itself, under the identity that the
  -- store was made with; and while there is a record to recover, saving is barred.
  pub History-IsConsistent :
      (c : Cell W) → History p id c → IsConsistent p.engine.host id false c.store
  History-IsConsistent c before = (History-Sound c before).sound
