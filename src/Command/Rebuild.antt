-- ===== src/Command/Rebuild.antt =====
-- reconstructFiles of cmd/p2p-file-sync/main.go. The files that it writes are a log of their paths below
-- the directory and their contents, the last one first. Directories and modes are left out, as is the
-- count, which is printed.
pub mod Files
mod Tests
use p2p_file_sync.Prelude.{
  ℕ, Bool, true, false, Option, none, some, List, [], ◌∷◌, ◌++◌, if◌then◌else◌, Outcome, ok, err,
}
use p2p_file_sync.Cas.Chunker.{Chunk}
use p2p_file_sync.Cas.Store.{Disk, ReadFaults, GetError, get}
use p2p_file_sync.Proto.Nodes.{ProtoNode, ProtoChildren, proto_node, no_more, proto_child}
use p2p_file_sync.ProtoDiff.{child_path}

abbrev pub Log : Type 0
Log = List (List ℕ × List ℕ)

pub data RebuildError : Type 0 where
  creating : RebuildError
  missing_chunk : GetError → RebuildError
  writing : RebuildError

-- The error, if any, and what is written of a file. `torn` is what a failing write of the chunk leaves of
-- it, if it fails.
unfoldable pub copied :
    Option (List ℕ)
    → Outcome GetError Chunk
    → List ℕ
    → (List ℕ → Outcome RebuildError (Unit {0}) × List ℕ)
    → Outcome RebuildError (Unit {0}) × List ℕ
copied torn (err e) written go_on = (err (missing_chunk e), written)
copied none (ok c) written go_on = go_on (written ++ c.content)
copied (some part) (ok c) written go_on = (err writing, written ++ part)

unfoldable pub logged :
    List ℕ → Outcome RebuildError (Unit {0}) × List ℕ → Log → Outcome RebuildError (Unit {0}) × Log
logged path (out, written) log = (out, (path, written) ∷ log)

unfoldable pub then_rebuild :
    Outcome RebuildError (Unit {0}) × Log
    → (Log → Outcome RebuildError (Unit {0}) × Log)
    → Outcome RebuildError (Unit {0}) × Log
then_rebuild (err e, log) go_on = (err e, log)
then_rebuild (ok done, log) go_on = go_on log

-- `creating_fails` tells for which paths os.MkdirAll or os.Create fails, `faults` which calls fail in
-- the Get of a hash, and `torn` whether the write of its chunk fails, and what that leaves.
module _ (creating_fails : List ℕ → Bool) (faults : List ℕ → ReadFaults)
    (torn : List ℕ → Option (List ℕ)) (disk : Disk) where
  -- The loop over the chunks of a file.
  unfoldable pub copy_chunks : List (List ℕ) → List ℕ → Outcome RebuildError (Unit {0}) × List ℕ
  unfolding copied
  copy_chunks [] written = (ok tt, written)
  copy_chunks (hash ∷ hashes) written =
      copied (torn hash) (get (faults hash) hash disk) written (λ w. copy_chunks hashes w)

  -- reconstructFilesRecursive of a file. Without chunks, it writes nothing.
  unfoldable pub rebuild_file : List ℕ → List (List ℕ) → Log → Outcome RebuildError (Unit {0}) × Log
  unfolding copy_chunks logged
  rebuild_file path [] log = (ok tt, log)
  rebuild_file path (hash ∷ hashes) log =
      if creating_fails path
      then (err creating, log)
      else logged path (copy_chunks (hash ∷ hashes) []) log

  -- reconstructFilesRecursive, by the path of the parent.
  unfoldable mutual
    unfolding rebuild_file then_rebuild

    pub rebuild : ProtoNode → List ℕ → Log → Outcome RebuildError (Unit {0}) × Log
    rebuild (proto_node i cs) rel log =
        let path = child_path rel i.name in
        let below = rebuild_all cs path log in
        if i.directory
        then if creating_fails path then (err creating, log) else below
        else rebuild_file path i.chunks log

    pub rebuild_all : ProtoChildren → List ℕ → Log → Outcome RebuildError (Unit {0}) × Log
    rebuild_all no_more path log = (ok tt, log)
    rebuild_all (proto_child c cs) path log =
        then_rebuild (rebuild c path log) (λ l. rebuild_all cs path l)

  -- reconstructFiles: the name of the root is skipped.
  unfoldable pub reconstruct_files : ProtoNode → Outcome RebuildError (Unit {0}) × Log
  unfolding rebuild
  reconstruct_files (proto_node i cs) = rebuild_all cs [] []
