-- ===== src/FileTruth/Store/Watching/Noticed.antt =====
-- What a change of the file by another hand does to the store.
use noto.Common.{
  ◌≡◌, refl, sym, ap, ◌∙◌, ◌⊎◌, inl, inr, Bool, true, false, ◌||◌, Option, none, some,
  if◌then◌else◌, Bool-cases, Option-cases, is_some, ◌==◌, nat_eq, bool_eq, list_beq_iff, list_eq,
  Text,
}
use noto.Contracts.{Document}
use noto.Document.{ParseResult, parsed, invalid_utf8, parse_document, to_wire}
use noto.FileTruth.{FileFingerprint, SaveToken}
use noto.FileTruth.Platform.{Attempt, done, threw, Platform, CapturedFile}
use noto.FileTruth.Store.{Store, Cell, Step, ◌>>=◌, ◌>>◌, attempt, change, pure}
use noto.FileTruth.Store.Saving.{Accepted, accepted_of}
use noto.FileTruth.Store.Watching.{
  ExternalChange, changed, missing, rebased, is_same_file, note_file, note_look, check_accepted,
  check_external_change, ReloadOutcome, reloaded, unchanged, gone, not_reloaded, reopen,
  reload_from, reload_unlocked, reload_accepted, reload,
}

abbrev pub content_of : Option FileFingerprint → Option Text
content_of none = none
content_of (some f) = some f.content_sha256

abbrev pub revision_of : Option Document → Option Text
revision_of none = none
revision_of (some d) = some d.revision_id

abbrev pub identity_of : Option Document → Option Text
identity_of none = none
identity_of (some d) = some d.document_id

-- The editor's work, and the bytes that it is based on, are the same.
abbrev pub SameWork : Store → Store → Type 0
SameWork old new =
    (old.document ≡ new.document)
    × (old.accepted_path ≡ new.accepted_path)
    × (content_of old.accepted_fingerprint ≡ content_of new.accepted_fingerprint)
    × (old.editor_revision ≡ new.editor_revision)

-- The token is that of the store.
abbrev pub Names : Store → SaveToken → Type 0
Names s t =
    (revision_of s.document ≡ some t.document_revision_id)
    × (s.editor_revision ≡ t.editor_revision)
    × (s.accepted_fingerprint ≡ some t.fingerprint)

abbrev pub Holds : Store → Accepted → Type 0
Holds s a =
    (s.document ≡ some a.document)
    × (s.accepted_path ≡ some a.path)
    × (s.accepted_fingerprint ≡ some a.fingerprint)

pub accepted_cases :
    (s : Store) → (accepted_of s ≡ none) ⊎ ((a : Accepted) × (accepted_of s ≡ some a) × Holds s a)
accepted_cases s = elim (Option-cases s.document) [
  | inl h ↦ inl (rw (h) refl)
  | inr (d, h) ↦ (elim (Option-cases s.accepted_path) [
    | inl k ↦ inl (rw (h, k) refl)
    | inr (path, k) ↦ (elim (Option-cases s.accepted_fingerprint) [
      | inl l ↦ inl (rw (h, k, l) refl)
      | inr (f, l) ↦
          inr (record { document = d; path = path; fingerprint = f }, rw (h, k, l) refl, (h, k, l))
    ])
  ])
]

abbrev pub Fits : Option ExternalChange → Store → Type 0
Fits (some (rebased t)) new = Names new t
Fits _ new = Unit

abbrev pub Noticed : Store → Attempt (Option ExternalChange) → Store → Type 0
Noticed old answer new =
    (x : Option ExternalChange) × (answer ≡ done x) × SameWork old new × Fits x new

-- A reload brings a document of the same identity with its token, or leaves the work as it is.
abbrev pub Reopens : Store → ReloadOutcome → Store → Type 0
Reopens old (reloaded r) new =
    Names new r.save_token
    × (identity_of old.document ≡ identity_of new.document)
    × ((d : Document) × (new.document ≡ some d) × (r.document ≡ to_wire d))
Reopens old _ new = SameWork old new

abbrev pub Reloads : Store → Attempt ReloadOutcome → Store → Type 0
Reloads old answer new = (x : ReloadOutcome) × (answer ≡ done x) × Reopens old x new

Reopens-unlock :
    (old new : Store) (x : ReloadOutcome)
    → Reopens old x new
    → Reopens old x (record new { transaction_active = false })
Reopens-unlock old new (reloaded r) h = h
Reopens-unlock old new unchanged h = h
Reopens-unlock old new gone h = h
Reopens-unlock old new (not_reloaded reason) h = h

module _ {W : Type 0} (p : Platform W) where
  note_file-Noticed :
      (a : Accepted) (current : FileFingerprint) (c : Cell W)
      → Holds c.store a
      → Noticed c.store (note_file p a current c).0 (note_file p a current c).1.store
  unfolding note_file ◌>>=◌
  note_file-Noticed a current c (h, k, l) = elim (Bool-cases (is_same_file a.fingerprint current)) [
    | inl ours ↦ rw (ours, note_file) (none, refl, (refl, refl, refl, refl), tt)
    | inr other ↦ elim (Bool-cases (current.content_sha256 == a.fingerprint.content_sha256)) [
      | inl same ↦
          rw (other, note_file, same)
            (
              _,
              refl,
              (
                refl,
                refl,
                ap content_of l ∙ ap (λ x. some x) (sym ((list_beq_iff _ _).0 same)),
                refl,
              ),
              (ap revision_of h, refl, refl),
            )
      | inr differs ↦
          rw (other, note_file, differs) (some changed, refl, (refl, refl, refl, refl), tt)
    ]
  ]

  note_look-Noticed :
      (a : Accepted) (looked : Attempt (Option FileFingerprint)) (c : Cell W)
      → Holds c.store a
      → Noticed c.store (note_look p a looked c).0 (note_look p a looked c).1.store
  unfolding note_look ◌>>=◌
  note_look-Noticed a (threw e) c h = (none, refl, (refl, refl, refl, refl), tt)
  note_look-Noticed a (done none) c h = (some missing, refl, (refl, refl, refl, refl), tt)
  note_look-Noticed a (done (some current)) c h = note_file-Noticed a current c h

  check_accepted-Noticed :
      (a : Accepted) (c : Cell W)
      → Holds c.store a
      → Noticed c.store (check_accepted p (some a) c).0 (check_accepted p (some a) c).1.store
  unfolding check_accepted ◌>>=◌ attempt
  check_accepted-Noticed a c h =
      note_look-Noticed a (p.fingerprint a.path c.world).0
        (record c { world = (p.fingerprint a.path c.world).1 }) h

  -- A look at the file on disk always ends, and leaves the editor's work and the bytes that it is based
  -- on as they are, whatever it finds. If it tells of the same bytes in another file, the save token
  -- that it sends is the one that the store now stands by: of its document, its editor revision and
  -- the fingerprint that it moved to.
  pub check_external_change-Noticed :
      (c : Cell W)
      → Noticed c.store (check_external_change p c).0 (check_external_change p c).1.store
  unfolding check_external_change check_accepted
  check_external_change-Noticed c = elim (accepted_cases c.store) [
    | inl h ↦ rw (h, check_external_change) (none, refl, (refl, refl, refl, refl), tt)
    | inr (a, h, holds) ↦ rw (h, check_external_change) (check_accepted-Noticed a c holds)
  ]

  reopen-Reloads :
      (a : Accepted) (captured : CapturedFile) (result : ParseResult) (c : Cell W)
      → Holds c.store a
      → Reloads c.store (reopen p a captured result c).0 (reopen p a captured result c).1.store
  unfolding reopen ◌>>=◌
  reopen-Reloads a captured (invalid_utf8 bytes) c h = (_, refl, (refl, refl, refl, refl))
  reopen-Reloads a captured (parsed d) c (h, k, l) =
      (_, refl, ((refl, refl, refl), ap identity_of h, (_, refl, refl)))

  reload_from-Reloads :
      (a : Accepted) (captured : Attempt CapturedFile) (c : Cell W)
      → Holds c.store a
      → Reloads c.store (reload_from p a captured c).0 (reload_from p a captured c).1.store
  unfolding reload_from ◌>>=◌
  reload_from-Reloads a (threw e) c h = (gone, refl, (refl, refl, refl, refl))
  reload_from-Reloads a (done captured) c (h, k, l) =
      let f = captured.identity.fingerprint in
      elim (Bool-cases (f.content_sha256 == a.fingerprint.content_sha256)) [
        | inl same ↦
            rw (same, reload_from)
              (
                unchanged,
                refl,
                (
                  refl,
                  refl,
                  ap content_of l ∙ ap (λ x. some x) (sym ((list_beq_iff _ _).0 same)),
                  refl,
                ),
              )
        | inr differs ↦
            rw (differs, reload_from)
              (reopen-Reloads a captured (parse_document p.engine.host captured.bytes) c (h, k, l))
      ]

  if-Reloads :
      (b : Bool) (m k : Step W ReloadOutcome) (c : Cell W)
      → Reloads c.store (m c).0 (m c).1.store
      → Reloads c.store (k c).0 (k c).1.store
      → Reloads c.store ((if b then m else k) c).0 ((if b then m else k) c).1.store
  if-Reloads true m k c x y = x
  if-Reloads false m k c x y = y

  abbrev unlock : ReloadOutcome → Step W ReloadOutcome
  unlock outcome = change (λ s. record s { transaction_active = false }) >> pure outcome

  unlock-Reloads :
      (m : Step W ReloadOutcome) (c : Cell W) (old : Store)
      → Reloads old (m c).0 (m c).1.store
      → Reloads old ((m >>= unlock) c).0 ((m >>= unlock) c).1.store
  unfolding ◌>>=◌
  unlock-Reloads m c old (outcome, is, reopened) =
      rw (is, ◌>>=◌) (outcome, refl, Reopens-unlock old _ outcome reopened)

  reload_unlocked-Reloads :
      (a : Accepted) (c : Cell W)
      → Holds c.store a
      → Reloads c.store (reload_unlocked p a c).0 (reload_unlocked p a c).1.store
  unfolding reload_unlocked ◌>>=◌ attempt
  reload_unlocked-Reloads a c h =
      let read = p.capture a.path c.world in
      let here = record c {
        store = record c.store { transaction_active = true };
        world = read.1;
      } in
      unlock-Reloads (reload_from p a read.0) here c.store (reload_from-Reloads a read.0 here h)

  reload_accepted-Reloads :
      (a : Accepted) (c : Cell W)
      → Holds c.store a
      → Reloads c.store (reload_accepted p (some a) c).0 (reload_accepted p (some a) c).1.store
  unfolding reload_accepted
  reload_accepted-Reloads a c h =
      if-Reloads c.store.transaction_active _ _ c (_, refl, (refl, refl, refl, refl))
        (if-Reloads (is_some c.store.recovery || c.store.recovery_blocked) _ _ c
          (_, refl, (refl, refl, refl, refl)) (reload_unlocked-Reloads a c h))

  -- A reload always ends. If it brings the file in again, the store holds the document that it sends,
  -- under the identity that the editor knows it by, and the token that it sends is the store's. In
  -- every other case, a refusal, a file that is gone or one of the same bytes, the editor's work and
  -- the bytes that it is based on stay as they are.
  pub reload-Reloads : (c : Cell W) → Reloads c.store (reload p c).0 (reload p c).1.store
  unfolding reload reload_accepted
  reload-Reloads c = elim (accepted_cases c.store) [
    | inl h ↦ rw (h, reload) (_, refl, (refl, refl, refl, refl))
    | inr (a, h, holds) ↦ rw (h, reload) (reload_accepted-Reloads a c holds)
  ]
