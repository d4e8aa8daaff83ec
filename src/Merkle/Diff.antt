-- ===== src/Merkle/Diff.antt =====
-- Diff of internal/merkle/tree.go. The results stand in the order of the children; Go's order, that
-- of its maps, is not specified.
pub mod Collect
pub mod Covered
pub mod Complete
pub mod Collected
pub mod Sound
pub mod Empty
mod Tests
use p2p_file_sync.Prelude.{
  ℕ, Bool, true, false, Option, none, some, List, [], ◌∷◌, ◌++◌, if◌then◌else◌, ◌||◌,
}
use p2p_file_sync.Bytes.{bytes_equal}
use p2p_file_sync.Merkle.{
  Node, Children, node, end, child, info, is_dir, same_type, find_child, join_path, node_type_file,
  node_type_dir, NodeType,
}

-- DiffType
pub data DiffType : Type 0 where
  diff_type_added diff_type_deleted diff_type_modified : DiffType

-- DiffResult; the path comes first.
pub record DiffResult : Type 0 where
  pub path : List ℕ
  pub diff_type : DiffType
  pub local_node : Option Node
  pub remote_node : Option Node
  pub differing : List (List ℕ)

-- Membership in the set of the remote hashes.
unfoldable pub has_chunk : List ℕ → List (List ℕ) → Bool
has_chunk h [] = false
has_chunk h (c ∷ cs) = bytes_equal c h || has_chunk h cs

-- findDifferingChunks
unfoldable pub find_differing_chunks : List (List ℕ) → List (List ℕ) → List (List ℕ)
find_differing_chunks [] remote = []
find_differing_chunks (h ∷ hs) remote =
    let rest = find_differing_chunks hs remote in if has_chunk h remote then rest else h ∷ rest

-- The chunks that a collected node lists.
unfoldable pub file_chunks : Node → List (List ℕ)
file_chunks n = if is_dir (info n).kind then [] else (info n).chunks

-- The result of collectAll for one node.
unfoldable pub collected : DiffType → Node → List ℕ → DiffResult
collected diff_type_added n path = record {
  path = path;
  diff_type = diff_type_added;
  local_node = some n;
  remote_node = none;
  differing = file_chunks n;
}
collected diff_type_deleted n path = record {
  path = path;
  diff_type = diff_type_deleted;
  local_node = none;
  remote_node = some n;
  differing = file_chunks n;
}
collected diff_type_modified n path = record {
  path = path;
  diff_type = diff_type_modified;
  local_node = none;
  remote_node = some n;
  differing = file_chunks n;
}

-- collectAll
unfoldable mutual
  pub collect_all : DiffType → Node → List ℕ → List DiffResult
  collect_all t (node i cs) parent =
      collected t (node i cs) (join_path parent i.name)
      ∷ collect_children t cs (join_path parent i.name)

  pub collect_children : DiffType → Children → List ℕ → List DiffResult
  collect_children t end path = []
  collect_children t (child c cs) path = collect_all t c path ++ collect_children t cs path

-- Cases 4 and 5 of diffNodes: a changed type lists no chunks.
unfoldable pub modified : Node → Node → List ℕ → List (List ℕ) → DiffResult
modified l r path differing = record {
  path = path;
  diff_type = diff_type_modified;
  local_node = some l;
  remote_node = some r;
  differing = differing;
}

-- The results of a round for a child, where a map has no entry of its name. With the children that
-- come later, it passes over the child that the map does not keep.
unfoldable pub if_missing : Option Node → List DiffResult → List DiffResult
if_missing none here = here
if_missing (some d) here = []

-- The last loop of diffNodes: the remote children whose name no local child has.
unfoldable pub diff_remote : Children → Children → List ℕ → List DiffResult
diff_remote locals end path = []
diff_remote locals (child c cs) path =
    if_missing (find_child (info c).name cs)
      (if_missing (find_child (info c).name locals) (collect_all diff_type_deleted c path))
    ++ diff_remote locals cs path

-- Cases 3 to 6 of diffNodes, with the results of the descent.
unfoldable pub diff_pair : Node → Node → List ℕ → List DiffResult → List DiffResult
diff_pair l r path below =
    if bytes_equal (info l).hash (info r).hash
    then []
    else if same_type (info l).kind (info r).kind
    then if is_dir (info l).kind
      then below
      else modified l r path (find_differing_chunks (info l).chunks (info r).chunks) ∷ []
    else modified l r path [] ∷ []

-- diffNodes where the local node is there, and its loop over the local children.
unfoldable mutual
  pub diff_nodes : Node → Option Node → List ℕ → List DiffResult
  diff_nodes (node i cs) none parent = collect_all diff_type_added (node i cs) parent
  diff_nodes (node i cs) (some (node j ds)) parent =
      diff_pair (node i cs) (node j ds) (join_path parent i.name)
        (diff_locals cs ds (join_path parent i.name) ++ diff_remote cs ds (join_path parent i.name))

  pub diff_locals : Children → Children → List ℕ → List DiffResult
  diff_locals end remotes path = []
  diff_locals (child c cs) remotes path =
      if_missing (find_child (info c).name cs)
        (diff_nodes c (find_child (info c).name remotes) path)
      ++ diff_locals cs remotes path

-- Diff, where a tree without a root is `none`. The quick check of the root hashes is the first
-- test of diffNodes again.
unfoldable pub diff : Option Node → Option Node → List DiffResult
diff none none = []
diff none (some r) = collect_all diff_type_deleted r []
diff (some l) none = collect_all diff_type_added l []
diff (some l) (some r) =
    if bytes_equal (info l).hash (info r).hash then [] else diff_nodes l (some r) []
