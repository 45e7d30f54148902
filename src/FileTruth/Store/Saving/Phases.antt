-- ===== src/FileTruth/Store/Saving/Phases.antt =====
-- The phases of a save: the original is as it was until the replacement, and the temporary file holds
-- the whole candidate before it.
use noto.Common.{
  [], ℕ, ◌≡◌, ◌∙◌, ◌≢◌, ◌⊎◌, inl, inr, Bool, Option, none, some, List, nat_eq, bool_eq, list_eq,
  Text,
}
use noto.Serialize.{Serialized}
use noto.FileTruth.{replacement_complete, replacement_verified, journal_complete, Stage}
use noto.FileTruth.Platform.{
  at_after_replacement_before_journal_completion, Attempt, done, threw, Platform, Replacement,
  replaced, conflicted,
}
use noto.FileTruth.Store.{Cell, Step, in_world}
use noto.FileTruth.Store.Steps.{persist_stage}
use noto.FileTruth.Store.Triples.{
  Post, Triple, Stays, bind-Triple, then-Triple, weaken-Triple, if-Triple,
}
use noto.FileTruth.Store.Files.{
  Files, Replaces, Wrote, Pair, On, calm-Stays, pure-Stays, change-Stays, hold-Stays, reach-Stays,
  persist_journal-Stays,
}
use noto.FileTruth.Store.Saving.{Accepted, recovery_paths, prepare, publish, verify}

module _ {W : Type 0} (p : Platform W) (content : W → Text → Option (List ℕ))
    (attempt_id : Text) where
  -- The file that a save writes beside the original, and the record of it.
  abbrev pub temp_beside : Accepted → Text
  temp_beside a = p.temp_path_for a.path attempt_id

  -- The four files of a save are four.
  pub record Distinct (a : Accepted) : Type 0 where
    pub temp : temp_beside a ≢ a.path
    pub payload : p.payload_path_of a.path attempt_id ≢ a.path
    pub payload_temp : p.payload_path_of a.path attempt_id ≢ temp_beside a
    pub journal : p.journal_path_of a.path ≢ a.path
    pub journal_temp : p.journal_path_of a.path ≢ temp_beside a

  module _ (a : Accepted) (files : Files p content a.path (temp_beside a))
      (distinct : Distinct a) where
    abbrev On_ : Pair p content a.path (temp_beside a) → Cell W → Type 0
    On_ F = On p content a.path (temp_beside a) F

    module _ (out : Serialized) (mode : ℕ) (old : Option (List ℕ)) where
      abbrev IsOld : Cell W → Type 0
      IsOld = On_ (λ x y. x ≡ old)

      -- The original is as it was, and the temporary file holds these bytes.
      abbrev Beside : List ℕ → Cell W → Type 0
      Beside bytes = On_ (λ x y. (x ≡ old) × (y ≡ some bytes))

      -- These are the candidate's.
      abbrev IsReady : Cell W → Type 0
      IsReady = On_ (λ x y. (x ≡ old) × (y ≡ some out.output_bytes))

      abbrev IsNew : Cell W → Type 0
      IsNew = On_ (λ x y. x ≡ some out.output_bytes)

      abbrev IsWhole : Cell W → Type 0
      IsWhole = On_ (λ x y. (x ≡ old) ⊎ (x ≡ some out.output_bytes))

      persist_stage-Stays :
          (F : Pair p content a.path (temp_beside a)) (recreating : Bool) (stage : Stage)
          → Stays
              (On_ F)
              (persist_stage p (recovery_paths p attempt_id a out mode recreating) stage)
      unfolding recovery_paths
      persist_stage-Stays F recreating stage =
          then-Triple (reach-Stays p content a.path (temp_beside a) F stage) (
            persist_journal-Stays p content a.path (temp_beside a) files F _ distinct.journal
              distinct.journal_temp)

      written-Post :
          (bytes : List ℕ) (r : Attempt Unit) (c : Cell W)
          → IsOld c
          → Wrote p content a.path (temp_beside a) bytes r c.world
          → Post (λ x. Beside bytes) IsOld r c
      written-Post bytes (done x) c h w = (h, w)
      written-Post bytes (threw e) c h w = h

      create-Triple :
          Triple IsOld (in_world (p.create_exclusive_temp (temp_beside a))) (λ x. Beside []) IsOld
      create-Triple = record {
        holds = λ c h.
            let made = p.create_exclusive_temp (temp_beside a) c.world in
            written-Post [] made.0 (record c { world = made.1 }) (files.create c.world ∙ h)
              (files.created c.world);
      }

      write-Triple :
          Triple
            (Beside [])
            (in_world (p.write_temp (temp_beside a) out.output_bytes))
            (λ x. IsReady)
            IsOld
      write-Triple = record {
        holds = λ c h.
            let written = p.write_temp (temp_beside a) out.output_bytes c.world in
            written-Post out.output_bytes written.0 (record c { world = written.1 })
              (files.write out.output_bytes c.world ∙ h.0)
              (files.wrote out.output_bytes c.world h.1);
      }

      -- While the temporary file holds what it should, an error still leaves the original as it was.
      prepared-Triple :
          {A : Type 0} {m : Step W A} (bytes : List ℕ)
          → Stays (Beside bytes) m
          → Triple (Beside bytes) m (λ x. Beside bytes) IsOld
      prepared-Triple bytes k = weaken-Triple (λ c h. h) (λ x c h. h) (λ c h. h.0) k

      pub prepare-Triple :
          (recreating : Bool)
          → Triple IsOld
              (prepare p attempt_id a out mode (recovery_paths p attempt_id a out mode recreating))
              (λ x. IsReady)
              IsOld
      unfolding prepare recovery_paths
      prepare-Triple recreating =
          let old_file : Pair p content a.path (temp_beside a) = λ x y. x ≡ old in
          let ready : Pair p content a.path (temp_beside a) =
            λ x y. (x ≡ old) × (y ≡ some out.output_bytes) in
          let calm = calm-Stays p content a.path (temp_beside a) ready in
          then-Triple
            (then-Triple
              (then-Triple
                (then-Triple
                  (then-Triple
                    (then-Triple
                      (then-Triple
                        (then-Triple
                          (then-Triple
                            (then-Triple
                              (then-Triple
                                (then-Triple
                                  (then-Triple
                                    (then-Triple
                                      (change-Stays p content a.path (temp_beside a) old_file _)
                                      (calm-Stays p content a.path (temp_beside a) old_file _
                                        (files.hit _)))
                                    (calm-Stays p content a.path (temp_beside a) old_file _ (λ w.
                                      files.write_durable_file _ _ w distinct.payload
                                        distinct.payload_temp)))
                                  (persist_stage-Stays old_file recreating _))
                                create-Triple)
                              (prepared-Triple [] (
                                hold-Stays p content a.path (temp_beside a)
                                  (λ x y. (x ≡ old) × (y ≡ some [])) _)))
                            write-Triple)
                          (prepared-Triple out.output_bytes
                            (persist_stage-Stays ready recreating _)))
                        (prepared-Triple out.output_bytes (calm _ files.flush)))
                      (prepared-Triple out.output_bytes (persist_stage-Stays ready recreating _)))
                    (prepared-Triple out.output_bytes (calm _ (files.mode mode))))
                  (prepared-Triple out.output_bytes (persist_stage-Stays ready recreating _)))
                (prepared-Triple out.output_bytes (calm _ (files.close _))))
              (prepared-Triple out.output_bytes
                (hold-Stays p content a.path (temp_beside a) ready none)))
            (prepared-Triple out.output_bytes (persist_stage-Stays ready recreating _))

      unfoldable pub AfterPublish : Replacement → Cell W → Type 0
      AfterPublish replaced c = IsNew c
      AfterPublish (conflicted current) c = IsOld c

      published-Post :
          (r : Attempt Replacement) (before : Cell W) (c : Cell W)
          → IsReady before
          → Replaces p content a.path (temp_beside a) before.world r c.world
          → Post AfterPublish IsWhole r c
      unfolding AfterPublish
      published-Post (done replaced) before c (h, ready) put = put ∙ ready
      published-Post (done (conflicted current)) before c (h, ready) put = put ∙ h
      published-Post (threw e) before c (h, ready) (inl put) = inl (put ∙ h)
      published-Post (threw e) before c (h, ready) (inr put) = inr (put ∙ ready)

      replace-Triple :
          (f : W → Attempt Replacement × W)
          → ((w : W) → Replaces p content a.path (temp_beside a) w (f w).0 (f w).1)
          → Triple IsReady (in_world f) AfterPublish IsWhole
      replace-Triple f k = record {
        holds = λ c h.
            published-Post (f c.world).0 c (record c { world = (f c.world).1 }) h (k c.world);
      }

      pub publish-Triple :
          (recreating : Bool)
          → Triple IsReady (publish p attempt_id a out mode recreating) AfterPublish IsWhole
      unfolding publish
      publish-Triple recreating =
          if-Triple recreating _ _ (replace-Triple _ files.publish)
            (replace-Triple _ (files.replace a.fingerprint))

      pub verify-Stays :
          (recreating : Bool)
          → Stays IsNew
              (verify p attempt_id a out mode (recovery_paths p attempt_id a out mode recreating))
      unfolding verify recovery_paths
      verify-Stays recreating =
          let new_file : Pair p content a.path (temp_beside a) = λ x y. x ≡ some out.output_bytes in
          bind-Triple _ _
            (then-Triple
              (then-Triple
                (then-Triple (persist_stage-Stays new_file recreating replacement_complete) (
                  calm-Stays p content a.path (temp_beside a) new_file
                    (p.hit at_after_replacement_before_journal_completion)
                    (files.hit at_after_replacement_before_journal_completion)))
                (calm-Stays p content a.path (temp_beside a) new_file (p.sync_directory_of a.path)
                  files.sync))
              (calm-Stays p content a.path (temp_beside a) new_file
                (p.verify_readback a.path out.output_bytes mode)
                (files.readback out.output_bytes mode)))
            (λ identity.
              then-Triple
                (then-Triple (persist_stage-Stays new_file recreating replacement_verified)
                  (persist_stage-Stays new_file recreating journal_complete))
                (pure-Stays p content a.path (temp_beside a) new_file identity))
