-- ===== src/Command/Rebuild/Tests.antt =====
-- A directory with one file of two bytes, in a store that has its one chunk.
use p2p_file_sync.Prelude.{
  ℕ, ◌≡◌, refl, Bool, true, false, none, some, List, [], ◌∷◌, replicate, ok,
}
use p2p_file_sync.Bytes.{text_bytes}
use p2p_file_sync.Pieces.{pieces}
use p2p_file_sync.Cas.Chunker.{chunk_size}
use p2p_file_sync.Cas.Store.{Disk}
use p2p_file_sync.Cas.Store.Reads.{no_read_faults}
use p2p_file_sync.Proto.Nodes.{ProtoInfo, ProtoChildren, proto_node, no_more, proto_child}
use p2p_file_sync.ProtoDiff.{child_path}
use p2p_file_sync.Command.Rebuild.{reconstruct_files}
use p2p_file_sync.Command.Rebuild.Files.{
  Complete, PublishedBelow, files_of, files_below, reconstruct_files-files_below,
}

abbrev hash : List ℕ
hash = replicate 32 7

abbrev sha256 : List ℕ → List ℕ
sha256 content = hash

-- The store has the one content under every path.
abbrev disk : Disk
disk path = some (text_bytes "hi")

abbrev source : List ℕ → List ℕ
source path = text_bytes "hi"

abbrev named : Bool → List ℕ → List (List ℕ) → ProtoInfo
named directory name chunks = record {
  name = name;
  directory = directory;
  hash = hash;
  mode = 420;
  size = 2;
  chunks = chunks;
}

abbrev root : ProtoInfo
root = named true [] []

abbrev inside : ProtoChildren
inside = proto_child (proto_node (named false (text_bytes "a") (hash ∷ [])) no_more) no_more

a-Complete : Complete sha256 disk source (text_bytes "a") (hash ∷ [])
unfolding pieces chunk_size
a-Complete = (refl, (refl, tt))

inside-PublishedBelow : PublishedBelow sha256 disk source inside []
unfolding child_path
inside-PublishedBelow = ((λ e. a-Complete, λ e. cc), tt)

reconstruct_files-files_below_example :
    reconstruct_files (λ p. false) (λ h. no_read_faults) (λ h. none) disk (proto_node root inside)
    ≡ (ok tt, files_below source inside [] [])
reconstruct_files-files_below_example =
    reconstruct_files-files_below sha256 disk source root inside inside-PublishedBelow

one_file : files_below source inside [] [] ≡ (text_bytes "a", text_bytes "hi") ∷ []
unfolding files_of child_path
one_file = refl
