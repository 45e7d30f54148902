-- ===== src/FileTruth/Store/History/Watches.antt =====
-- A look at the file, and a reload of it, leave a store consistent.
use noto.Common.{
  ℕ, ◌≡◌, refl, true, false, ◌||◌, Option, none, some, List, is_some, ◌==◌, nat_eq, bool_eq,
  list_eq, Text,
}
use noto.Document.{ParseResult, parsed, invalid_utf8, parse_document}
use noto.Document.Named.{parse_document-IsRevision}
use noto.FileTruth.{FileFingerprint}
use noto.FileTruth.Platform.{Platform, done, threw, Attempt, CapturedFile}
use noto.FileTruth.Store.{change, Cell, Step, ◌>>=◌, in_world, attempt}
use noto.FileTruth.Store.Triples.{
  Triple, Stays, bind-Triple, then-Triple, here-Triple, attempt-Stays, if-Triple,
}
use noto.FileTruth.Store.Saving.{Accepted, accepted_of}
use noto.FileTruth.Store.Watching.{
  is_same_file, note_file, note_look, check_accepted, check_external_change, reopen, reload_from,
  reload_unlocked, reload_accepted, reload,
}
use noto.FileTruth.Store.History.{Owns}
use noto.FileTruth.Store.History.Steps.{Sound, change-Sound, world-Sound, pure-Sound, accepted-Owns}

module _ {W : Type 0} (p : Platform W) (id : Text) where
  abbrev Free : Cell W → Type 0
  Free = Sound p.engine.host id false

  note_file-Free : (a : Accepted) (current : FileFingerprint) → Stays Free (note_file p a current)
  unfolding note_file
  note_file-Free a current = here-Triple _ (λ c.
      if-Triple (is_same_file a.fingerprint current) _ _ (pure-Sound _) (
        if-Triple (current.content_sha256 == a.fingerprint.content_sha256) _ _
          (then-Triple (change-Sound _ (λ s h. h)) (pure-Sound _))
          (then-Triple (change-Sound _ (λ s h. h)) (pure-Sound _))))

  note_look-Free :
      (a : Accepted) (looked : Attempt (Option FileFingerprint)) → Stays Free (note_look p a looked)
  unfolding note_look
  note_look-Free a (threw e) = pure-Sound _
  note_look-Free a (done none) = then-Triple (change-Sound _ (λ s h. h)) (pure-Sound _)
  note_look-Free a (done (some current)) = note_file-Free a current

  check_accepted-Free : (o : Option Accepted) → Stays Free (check_accepted p o)
  unfolding check_accepted
  check_accepted-Free none = pure-Sound _
  check_accepted-Free (some a) =
      bind-Triple _ _ (attempt-Stays _ (world-Sound _)) (λ looked. note_look-Free a looked)

  pub check_external_change-Sound : Stays Free (check_external_change p)
  unfolding check_external_change
  check_external_change-Sound = here-Triple _ (λ c. check_accepted-Free (accepted_of c.store))

  -- While a reload is under way; no error gets out of it.
  abbrev Reloading : {A : Type 0} → Step W A → Type 0
  Reloading m = Triple (Sound p.engine.host id true) m (λ x. Sound p.engine.host id true) Free

  reopen-Reloading :
      (a : Accepted) (captured : CapturedFile) (bytes : List ℕ) (result : ParseResult)
      → Owns p.engine.host id (some a.document)
      → parse_document p.engine.host bytes ≡ result
      → Reloading (reopen p a captured result)
  unfolding reopen ◌>>=◌
  reopen-Reloading a captured bytes (invalid_utf8 x) own is = record { holds = λ c h. h }
  reopen-Reloading a captured bytes (parsed d) own is = record {
    holds = λ c h.
        let (x, y, z, k) = h.sound in
        record { sound = (x, y, (own.0, parse_document-IsRevision p.engine.host bytes d is), k) };
  }

  reload_from-Reloading :
      (a : Accepted) (captured : Attempt CapturedFile)
      → Owns p.engine.host id (some a.document)
      → Reloading (reload_from p a captured)
  unfolding reload_from ◌>>=◌
  reload_from-Reloading a (threw e) own = record { holds = λ c h. h }
  reload_from-Reloading a (done captured) own =
      if-Triple (captured.identity.fingerprint.content_sha256 == a.fingerprint.content_sha256) _ _
        (record { holds = λ c h. record { sound = h.sound } })
        (reopen-Reloading a captured captured.bytes _ own refl)

  locking-Reloading :
      Triple Free
        (change {W = W} (λ s. record s { transaction_active = true }))
        (λ x. Sound p.engine.host id true)
        Free
  locking-Reloading = record {
    holds = λ c h. let (x, y, z, k) = h.sound in record { sound = (x, refl, z, k) };
  }

  unlocking-Free :
      Triple
        (Sound p.engine.host id true)
        (change {W = W} (λ s. record s { transaction_active = false }))
        (λ x. Free)
        Free
  unlocking-Free = record {
    holds = λ c h. let (x, y, z, k) = h.sound in record { sound = (x, refl, z, k) };
  }

  captured-Reloading : (f : W → Attempt CapturedFile × W) → Reloading (attempt (in_world f))
  unfolding attempt
  captured-Reloading f = record { holds = λ c h. record { sound = h.sound } }

  reload_unlocked-Free :
      (a : Accepted) → Owns p.engine.host id (some a.document) → Stays Free (reload_unlocked p a)
  unfolding reload_unlocked
  reload_unlocked-Free a own =
      bind-Triple {Q = λ x. Sound p.engine.host id true} _ _
        (then-Triple {Q = Sound p.engine.host id true} locking-Reloading (captured-Reloading _))
        (λ captured.
          bind-Triple _ _ (reload_from-Reloading a captured own)
            (λ outcome. then-Triple {Q = Free} unlocking-Free (pure-Sound _)))

  reload_accepted-Free :
      (o : Option Accepted)
      → ((a : Accepted) → o ≡ some a → Owns p.engine.host id (some a.document))
      → Stays Free (reload_accepted p o)
  unfolding reload_accepted
  reload_accepted-Free none own = here-Triple _ (λ c. pure-Sound _)
  reload_accepted-Free (some a) own = here-Triple _ (λ c.
      if-Triple c.store.transaction_active _ _ (pure-Sound _) (
        if-Triple (is_some c.store.recovery || c.store.recovery_blocked) _ _ (pure-Sound _)
          (reload_unlocked-Free a (own a refl))))

  pub reload-Sound : Stays Free (reload p)
  unfolding reload
  reload-Sound = record {
    holds = λ c h.
        (reload_accepted-Free (accepted_of c.store)
            (λ a is. accepted-Owns p.engine.host id c.store a h.sound.2 is)).holds
          c h;
  }
