-- ===== src/ProtoDiff.antt =====
-- internal/diff/diff.go: the comparison of two manifests. The results stand in the order of the
-- children, those of the local node first; Go's order, that of a map, is not specified.
pub mod Kinds
mod Tests
use p2p_file_sync.Prelude.{
  ℕ, Bool, true, false, ◌||◌, Option, none, some, List, [], ◌∷◌, ◌++◌, if◌then◌else◌,
}
use p2p_file_sync.Bytes.{bytes_equal}
use p2p_file_sync.Cas.Store.{join_parts}
use p2p_file_sync.Proto.Nodes.{
  ProtoInfo, ProtoNode, ProtoChildren, proto_node, no_more, proto_child,
}

abbrev pub proto_info : ProtoNode → ProtoInfo
proto_info (proto_node i cs) = i

-- DiffResult
pub record Differences : Type 0 where
  pub added : List ProtoNode
  pub modified : List ProtoNode
  pub deleted : List (List ℕ)

abbrev pub no_difference : Differences
no_difference = record { added = []; modified = []; deleted = [] }

-- What is appended to a result.
unfoldable pub followed_by : Differences → Differences → Differences
followed_by d e = record {
  added = d.added ++ e.added;
  modified = d.modified ++ e.modified;
  deleted = d.deleted ++ e.deleted;
}

-- The value of the map of the children: a later child replaces an earlier one of the same name.
unfoldable pub find_proto : List ℕ → ProtoChildren → Option ProtoNode
find_proto name no_more = none
find_proto name (proto_child c cs) = elim (find_proto name cs) [
  | some d ↦ some d
  | none ↦ if bytes_equal (proto_info c).name name then some c else none
]

-- `childPath`, for names that are clean.
unfoldable pub child_path : List ℕ → List ℕ → List ℕ
unfolding join_parts
child_path [] name = name
child_path (b ∷ path) name = join_parts (b ∷ path) name

unfoldable pub unless_found : Option ProtoNode → Differences → Differences
unless_found none d = d
unless_found (some c) d = no_difference

-- diffNode for the names that only the remote node has.
unfoldable pub only_remote : ProtoChildren → ProtoChildren → Differences
unfolding followed_by unless_found
only_remote locals no_more = no_difference
only_remote locals (proto_child c cs) =
    followed_by
      (unless_found (find_proto (proto_info c).name cs) (
        unless_found (find_proto (proto_info c).name locals)
          (record { added = c ∷ []; modified = []; deleted = [] })))
      (only_remote locals cs)

-- The tests of diffNode where both nodes are there, with the result of the loop over the names.
unfoldable pub compare_nodes : ProtoNode → ProtoNode → Differences → Differences
compare_nodes l r below =
    if bytes_equal (proto_info l).hash (proto_info r).hash
    then no_difference
    else if (proto_info l).directory || (proto_info r).directory
    then below
    else record { added = []; modified = r ∷ []; deleted = [] }

-- diffNode where the local node is there.
unfoldable mutual
  unfolding followed_by unless_found

  pub diff_node : ProtoNode → Option ProtoNode → List ℕ → Differences
  diff_node (proto_node i cs) none path = record { added = []; modified = []; deleted = path ∷ [] }
  diff_node (proto_node i cs) (some (proto_node j ds)) path =
      compare_nodes (proto_node i cs) (proto_node j ds)
        (followed_by (diff_names cs ds path) (only_remote cs ds))

  pub diff_names : ProtoChildren → ProtoChildren → List ℕ → Differences
  diff_names no_more remotes path = no_difference
  diff_names (proto_child c cs) remotes path =
      followed_by
        (unless_found (find_proto (proto_info c).name cs) (
          diff_node c (find_proto (proto_info c).name remotes)
            (child_path path (proto_info c).name)))
        (diff_names cs remotes path)

-- DiffTrees. Without both trees, it panics.
unfoldable pub diff_trees : Option ProtoNode → Option ProtoNode → Option Differences
diff_trees none none = none
diff_trees none (some r) = some (record { added = r ∷ []; modified = []; deleted = [] })
diff_trees (some l) r = some (diff_node l r [])
