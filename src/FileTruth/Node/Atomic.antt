-- ===== src/FileTruth/Node/Atomic.antt =====
-- A save, with the operations of node-platform.ts, replaces the file as a whole or leaves it alone.
use noto.Common.{ℕ, ◌≡◌, ◌⊎◌, Option, some, List, Text}
use noto.Serialize.{Serialized}
use noto.FileTruth.Platform.{Platform}
use noto.FileTruth.Store.{Cell, EditCandidate}
use noto.FileTruth.Store.Steps.{serialize_candidate}
use noto.FileTruth.Store.Saving.{Accepted, accepted_of, save}
use noto.FileTruth.Store.Saving.Phases.{Distinct}
use noto.FileTruth.Store.Saving.Atomic.{save_whole}
use noto.FileTruth.Node.{Primitives, Capabilities, node_platform}
use noto.FileTruth.Node.Writing.{FileSystem}
use noto.FileTruth.Node.Publishing.{node_platform-Files}

module _ {W : Type 0} (fs : Primitives W) (base : Platform W) (content : W → Text → Option (List ℕ))
    (capabilities : Capabilities) where
  -- Suppose, of the file system, that the temporary file is empty where it was made anew; that a write
  -- at its end, where it succeeds, appends as many of the bytes as it says, and that making it and
  -- writing it leave the original alone; that a rename or a link, done or failed, puts the whole
  -- temporary file in the place of the original or leaves that alone, one that says it is done puts it
  -- there, and a link that is refused for a name that is there, or as unsupported, changes neither
  -- file; that removing another file leaves the original alone, and writing another durable file
  -- leaves both alone; and that no other operation changes either. Suppose that the temporary file,
  -- the payload and the journal are not the original, and that the payload and the journal are not the
  -- temporary file. Then a save leaves the file that was accepted, whatever fails and wherever, as it
  -- was, or holding the whole of the bytes that the candidate was serialized to: it is never torn.
  pub save_atomic :
      (attempt_id : Text) (candidate : EditCandidate) (c : Cell W) (a : Accepted)
      → accepted_of c.store ≡ some a
      → FileSystem fs base content a.path (base.temp_path_for a.path attempt_id)
      → Distinct (node_platform fs base capabilities) content attempt_id a
      → (let p = node_platform fs base capabilities in
          let after = (save p attempt_id candidate c).1.world in
          (content after a.path ≡ content c.world a.path)
          ⊎ ((out : Serialized) × (serialize_candidate p a.document candidate.transaction
                ≡ some out)
              × (content after a.path ≡ some out.output_bytes)))
  save_atomic attempt_id candidate c a is disk distinct =
      save_whole (node_platform fs base capabilities) content attempt_id candidate c a is
        (node_platform-Files fs base content a.path (base.temp_path_for a.path attempt_id)
          capabilities disk distinct.temp)
        distinct
