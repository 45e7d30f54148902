-- ===== src/Lib.antt =====
-- Verification of Noto, a Markdown editor that keeps files byte for byte.
--
-- The parts of the program that are modelled, by the file that models each (paths of the sources
-- are from the repository's root):
--   * Contracts: the data of src/shared/markdown/v3/contracts.ts, a document's blocks and their
--     origins, the units of an edit, and how both cross to the other process.
--   * LineEndings: toLf and fromLf of src/shared/markdown/v3/line-endings.ts and detectLineEnding of
--     document.ts. Text in memory has line feeds only; the file's own ending comes back on writing.
--   * Document: toWire and parseDocument of src/shared/markdown/v3/document.ts, over the host's
--     decoder, hash and block splitter.
--   * Revision: src/shared/markdown/v3/revision-patch.ts. BlockId is blockIdAt. Build makes the patch
--     from one revision to the next, and Patch applies one. Transaction: the renderer sends an edit as
--     compactTransaction leaves it, and the main process expands it against the same revision.
--   * Windows: src/shared/markdown/v3/incremental.ts, which checks a save by reparsing only what
--     lies beside a change. The parser splitBlocks is a parameter.
--   * Serialize: src/shared/markdown/v3/serialize.ts, from an edit to the bytes that are written. Units
--     is validateOrigins, Gaps is gapBetween, and Save is serializeDocument, which tries in turn a save
--     that changes nothing (Identity), an edit of one block (Single), a region between unchanged ends
--     (Region), and the engine of @roobli/md (FromEngine). Next is buildNextDocument, the revision that
--     a save leaves; Windows runs the checks of incremental.ts on the output.
--   * Git: diffBlocks of src/shared/git/block-diff.ts. Table is tableAlign, Anchors is
--     uniqueAnchors, Align is alignRange and alignment, Similar is similarPairs, Diff is diffBlocks.
--   * Plugins: src/main/plugins/experimental-runtime-ledger.ts (RuntimeLedger, Heartbeat) and
--     service-request-ledger.ts (RequestLedger), which guard what a plugin may ask of the main
--     process; RequestLedger.Slot is what the second promises, without its keys and maps. Lifecycle
--     is src/shared/plugins/lifecycle.ts, the messages about plugins.
--   * FileTruth: the outcomes of a save, src/shared/file-truth/v1/contracts.ts, and what the
--     renderer makes of them, src/renderer/file-truth-state.ts. Store is
--     src/main/file-truth/v1/file-truth-store.ts: open (Opening), save (Saving), recover
--     (Recovering), saveCopy (Copying), saveForRenderer (Rendering), checkExternalChange and reload
--     (Watching), and the steps they share (Steps). History puts these together, one after another,
--     with what other hands do in between. Triples says what holds before and after a step, Quiet
--     which steps leave the store alone.
--     Node has the operations of src/main/file-truth/v1/node-platform.ts on a temporary file: writing
--     all of it (Writing), and putting it in the place of the original (Publishing); Files has what a
--     save relies on of these.
--     A step takes the store, the world and the local variables of a save, and gives an answer or
--     an error.
--   * Trail: src/renderer/trail.ts, back and forward over visited notes.
--   * Common: shared helpers. Tests: the theorems at concrete inputs.
--
-- A string is the list of its UTF-16 code units, a Map or Set the list of its entries in order of
-- insertion, an index a natural number, and null or undefined an empty option. Functions keep the
-- names of the source, in snake case; a loop is a function over what it has still to do. The
-- alignment recurses on the 32 levels that the source allows. Fuel is used in four places: the
-- binary search, where it is above the width of the interval; the chain of anchors, where it is
-- above the first index; the digits of a number, where it is above the number; and the loop of
-- writeAll, where it is the number of bytes, of which every turn writes one.
--
-- Parameters: the UTF-8 decoder and encoder, the engine of @roobli/md, the hash, the splitter of a
-- text into blocks, the words of a block (which goes by Unicode classes) and the arithmetic on
-- doubles, of which no law is assumed. A table of the alignment holds 32-bit counts, so its
-- optimality is stated for fewer than 2^32 blocks. The file system is the record FileTruth.Platform,
-- of which no law is assumed either, so any operation may fail and do anything to the world. Only the
-- theorem on the operations of Node asks for laws of node:fs/promises and of the operations that stay
-- parameters: they are the record FileSystem of Node.Writing.
--
-- Not modelled: the editor and the shell, which are bound to the DOM and to Electron; the engine
-- that parses Markdown; the operations of node-platform.ts but those of a save on its temporary file; and
-- when the watcher of the file truth store is armed: an operation of the store runs to its end before
-- another begins, a check for outside changes included.
mod Common
pub mod Contracts
pub mod Document
pub mod FileTruth
pub mod Git
pub mod LineEndings
pub mod Revision
pub mod Plugins
pub mod Serialize
pub mod Tests
pub mod Trail
pub mod Windows
