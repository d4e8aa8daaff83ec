-- ===== src/Merkle.antt =====
-- internal/merkle/tree.go: the nodes of a Merkle tree. A Go string is the list of its bytes, and a
-- node is its own fields with its children. No node is nil inside a tree.
pub mod Build
pub mod Manifest
pub mod Diff
use p2p_file_sync.Prelude.{
  ℕ, Bool, true, false, Option, none, some, List, [], ◌∷◌, ◌++◌, if◌then◌else◌,
}
use p2p_file_sync.Bytes.{bytes_equal}

-- NodeType
pub data NodeType : Type 0 where
  node_type_file node_type_dir : NodeType

-- The fields of Node but for the children.
pub record NodeInfo : Type 0 where
  pub name : List ℕ
  pub kind : NodeType
  pub hash : List ℕ
  pub mode : ℕ
  pub size : ℕ
  pub chunks : List (List ℕ)

mutual
  pub data Node : Type 0 where
    node : NodeInfo → Children → Node

  pub data Children : Type 0 where
    end : Children
    child : Node → Children → Children

abbrev pub info : Node → NodeInfo
info (node i cs) = i

abbrev pub children : Node → Children
children (node i cs) = cs

-- Node.IsDir
unfoldable pub is_dir : NodeType → Bool
is_dir node_type_file = false
is_dir node_type_dir = true

unfoldable pub same_type : NodeType → NodeType → Bool
same_type node_type_file node_type_file = true
same_type node_type_file node_type_dir = false
same_type node_type_dir node_type_file = false
same_type node_type_dir node_type_dir = true

-- The value of the map that is made of the children by name: a later child replaces an earlier one.
unfoldable pub find_child : List ℕ → Children → Option Node
find_child name end = none
find_child name (child c cs) = elim (find_child name cs) [
  | some d ↦ some d
  | none ↦ if bytes_equal (info c).name name then some c else none
]

-- joinPath
unfoldable pub join_path : List ℕ → List ℕ → List ℕ
join_path [] name = name
join_path (b ∷ parent) name = (b ∷ parent) ++ (47 ∷ name)

-- The node at the end of a sequence of names.
abbrev pub child_of : List ℕ → Option Node → Option Node
child_of name none = none
child_of name (some n) = find_child name (children n)

abbrev pub at : Option Node → List (List ℕ) → Option Node
at o [] = o
at o (name ∷ names) = at (child_of name o) names

-- Its path, from the path of the node where the names start.
abbrev pub join_all : List ℕ → List (List ℕ) → List ℕ
join_all path [] = path
join_all path (name ∷ names) = join_all (join_path path name) names
