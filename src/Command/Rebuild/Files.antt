-- ===== src/Command/Rebuild/Files.antt =====
-- The files that are made of a complete store.
use mathlib.Core.List.{flatten}
use p2p_file_sync.Prelude.{
  ℕ, ◌<◌, ◌≡◌, refl, ap, sym, subst, ◌∙◌, Bool, true, false, none, some, List, [], ◌∷◌, ◌++◌,
  append-nil, append_assoc, map, take, drop, if◌then◌else◌, Outcome, ok, err, arith,
}
use p2p_file_sync.Bytes.{All}
use p2p_file_sync.Pieces.{pieces, pieces_cons, flatten-pieces}
use p2p_file_sync.Cas.Chunker.{Chunk, chunk_size}
use p2p_file_sync.Cas.Store.{Disk, GetError}
use p2p_file_sync.Cas.Store.Paths.{path_of}
use p2p_file_sync.Cas.Store.Reads.{no_read_faults, get-at}
use p2p_file_sync.Proto.Nodes.{
  ProtoInfo, ProtoNode, ProtoChildren, proto_node, no_more, proto_child,
}
use p2p_file_sync.ProtoDiff.{child_path}
use p2p_file_sync.Command.Rebuild.{
  Log, RebuildError, creating, copied, logged, then_rebuild, copy_chunks, rebuild_file, rebuild,
  rebuild_all, reconstruct_files,
}

-- A file, unless it is empty.
abbrev pub with_file : List ℕ → List ℕ → Log → Log
with_file path [] log = log
with_file path (b ∷ content) log = (path, b ∷ content) ∷ log

module _ (source : List ℕ → List ℕ) where
  -- The files of a tree with their contents, in the order of the tree, the last one first.
  unfoldable mutual
    pub files_of : ProtoNode → List ℕ → Log → Log
    files_of (proto_node i cs) rel log =
        let path = child_path rel i.name in
        let below = files_below cs path log in
        if i.directory then below else with_file path (source path) log

    pub files_below : ProtoChildren → List ℕ → Log → Log
    files_below no_more path log = log
    files_below (proto_child c cs) path log = files_below cs path (files_of c path log)

module _ (sha256 : List ℕ → List ℕ) (disk : Disk) (source : List ℕ → List ℕ) where
  -- A file lists the hashes of the pieces of its content, and the store has every piece.
  abbrev pub Complete : List ℕ → List (List ℕ) → Type 0
  Complete path chunks =
      (chunks ≡ map sha256 (pieces chunk_size (source path)))
      × All (λ p. disk (path_of (sha256 p)) ≡ some p) (pieces chunk_size (source path))

  abbrev mutual
    pub Published : ProtoNode → List ℕ → Type 0
    Published (proto_node i cs) rel =
        (i.directory ≡ false → Complete (child_path rel i.name) i.chunks)
        × (i.directory ≡ true → PublishedBelow cs (child_path rel i.name))

    pub PublishedBelow : ProtoChildren → List ℕ → Type 0
    PublishedBelow no_more path = Unit
    PublishedBelow (proto_child c cs) path = Published c path × PublishedBelow cs path

  copy_chunks-pieces :
      (ps : List (List ℕ)) (written : List ℕ)
      → All (λ p. disk (path_of (sha256 p)) ≡ some p) ps
      → copy_chunks (λ path. false) (λ h. no_read_faults) (λ h. none) disk (map sha256 ps) written
        ≡ (ok tt, written ++ flatten ps)
  unfolding copy_chunks flatten
  copy_chunks-pieces [] written h = ap (λ (w : List ℕ). (ok tt, w)) (sym (append-nil written))
  copy_chunks-pieces (p ∷ ps) written h =
      ap
        (λ (o : Outcome GetError Chunk). copied none o written (λ w.
          copy_chunks (λ path. false) (λ k. no_read_faults) (λ k. none) disk (map sha256 ps) w))
        (get-at (sha256 p) p disk h.0)
      ∙ (unfold copied in copy_chunks-pieces ps (written ++ p) h.1)
      ∙ ap (λ (w : List ℕ). (ok tt, w)) (append_assoc written p (flatten ps))

  rebuild_file_cons :
      (path : List ℕ) (log : Log) (q : List ℕ) (qs : List (List ℕ))
      → All (λ p. disk (path_of (sha256 p)) ≡ some p) (q ∷ qs)
      → rebuild_file
          (λ p. false)
          (λ h. no_read_faults)
          (λ h. none)
          disk
          path
          (map sha256 (q ∷ qs))
          log
        ≡ (ok tt, (path, flatten (q ∷ qs)) ∷ log)
  unfolding rebuild_file
  rebuild_file_cons path log q qs h =
      ap (λ (w : Outcome RebuildError (Unit {0}) × List ℕ). logged path w log)
        (copy_chunks-pieces (q ∷ qs) [] h)
      ∙ (unfold logged in refl)

  rebuild_file-pieces :
      (path content : List ℕ) (log : Log)
      → All (λ p. disk (path_of (sha256 p)) ≡ some p) (pieces chunk_size content)
      → rebuild_file
          (λ p. false)
          (λ h. no_read_faults)
          (λ h. none)
          disk
          path
          (map sha256 (pieces chunk_size content))
          log
        ≡ (ok tt, with_file path content log)
  unfolding rebuild_file
  rebuild_file-pieces path [] log h = unfold pieces in refl
  rebuild_file-pieces path (b ∷ content) log h =
      let file = b ∷ content in
      let positive : 0 < chunk_size = unfold chunk_size in omega arith in
      let cut = pieces_cons chunk_size b content positive in
      ap
        (λ (ps : List (List ℕ)).
          rebuild_file (λ p. false) (λ h. no_read_faults) (λ h. none) disk path (map sha256 ps) log)
        cut
      ∙ rebuild_file_cons path log (take chunk_size file) (pieces chunk_size (drop chunk_size file))
          (subst (All (λ p. disk (path_of (sha256 p)) ≡ some p)) cut h)
      ∙ ap (λ (ps : List (List ℕ)). (ok tt, (path, flatten ps) ∷ log)) (sym cut)
      ∙ ap (λ (w : List ℕ). (ok tt, (path, w) ∷ log)) (flatten-pieces chunk_size file positive)

  -- A node, by its kind.
  rebuild_node :
      (b : Bool) (path : List ℕ) (chunks : List (List ℕ)) (log below : Log)
      (out : Outcome RebuildError (Unit {0}) × Log)
      → (b ≡ false → Complete path chunks)
      → (b ≡ true → out ≡ (ok tt, below))
      → (if b
          then (if false then (err creating, log) else out)
          else rebuild_file (λ p. false) (λ h. no_read_faults) (λ h. none) disk path chunks log)
        ≡ (ok tt, (if b then below else with_file path (source path) log))
  rebuild_node true path chunks log below out file dir = dir refl
  rebuild_node false path chunks log below out file dir =
      let (listed, there) = file refl in
      ap
        (λ (cs : List (List ℕ)).
          rebuild_file (λ p. false) (λ h. no_read_faults) (λ h. none) disk path cs log)
        listed
      ∙ rebuild_file-pieces path (source path) log there

  mutual
    unfolding rebuild files_of then_rebuild

    rebuild-files_of :
        (n : ProtoNode) (rel : List ℕ) (log : Log)
        → Published n rel
        → rebuild (λ p. false) (λ h. no_read_faults) (λ h. none) disk n rel log
          ≡ (ok tt, files_of source n rel log)
    rebuild-files_of (proto_node i cs) rel log h =
        let path = child_path rel i.name in
        rebuild_node i.directory path i.chunks log (files_below source cs path log)
          (rebuild_all (λ p. false) (λ k. no_read_faults) (λ k. none) disk cs path log) h.0
          (λ e. rebuild_all-files_below cs path log (h.1 e))

    rebuild_all-files_below :
        (cs : ProtoChildren) (path : List ℕ) (log : Log)
        → PublishedBelow cs path
        → rebuild_all (λ p. false) (λ h. no_read_faults) (λ h. none) disk cs path log
          ≡ (ok tt, files_below source cs path log)
    rebuild_all-files_below no_more path log h = refl
    rebuild_all-files_below (proto_child c cs) path log h =
        ap
          (λ (out : Outcome RebuildError (Unit {0}) × Log).
            then_rebuild out
              (λ l. rebuild_all (λ p. false) (λ k. no_read_faults) (λ k. none) disk cs path l))
          (rebuild-files_of c path log h.0)
        ∙ rebuild_all-files_below cs path (files_of source c path log) h.1

-- Where the files of a manifest list the hashes of the pieces of ChunkSize bytes of their contents, the
-- store has every piece under its hash, and no call fails, reconstructFiles returns no error and has
-- written every file below the root that is not empty, with its whole content, and nothing else; it
-- creates no empty file.
pub reconstruct_files-files_below :
    (sha256 : List ℕ → List ℕ) (disk : Disk) (source : List ℕ → List ℕ) (i : ProtoInfo)
    (cs : ProtoChildren)
    → PublishedBelow sha256 disk source cs []
    → reconstruct_files (λ p. false) (λ h. no_read_faults) (λ h. none) disk (proto_node i cs)
      ≡ (ok tt, files_below source cs [] [])
unfolding reconstruct_files
reconstruct_files-files_below sha256 disk source i cs h =
    rebuild_all-files_below sha256 disk source cs [] [] h
