-- ===== src/Merkle/Manifest.antt =====
-- The manifests of internal/merkle/build.go: ToManifest, BuildFromManifest and their recursions.
pub mod Transport
mod Tests
use p2p_file_sync.Prelude.{ℕ, Option, none, some, List, []}
use p2p_file_sync.Merkle.{
  Node, NodeInfo, Children, NodeType, node_type_file, node_type_dir, node, end, child,
}

-- ManifestNode: the fields of a node, and its children.
mutual
  pub data ManifestNode : Type 0 where
    manifest_node : NodeInfo → ManifestChildren → ManifestNode

  pub data ManifestChildren : Type 0 where
    manifest_end : ManifestChildren
    manifest_child : ManifestNode → ManifestChildren → ManifestChildren

-- Manifest, with a nil root as `none`.
pub record Manifest : Type 0 where
  pub root : Option ManifestNode

-- The two branches of nodeToManifestNode: a file keeps its chunks, a directory its children.
unfoldable pub pack_node : NodeType → NodeInfo → ManifestChildren → ManifestNode
pack_node node_type_file i cs = manifest_node i manifest_end
pack_node node_type_dir i cs = manifest_node (record i { chunks = [] }) cs

-- Those of manifestNodeToNode.
unfoldable pub unpack_node : NodeType → NodeInfo → Children → Node
unpack_node node_type_file i cs = node i end
unpack_node node_type_dir i cs = node (record i { chunks = [] }) cs

-- nodeToManifestNode and its loop.
unfoldable mutual
  pub node_to_manifest_node : Node → ManifestNode
  node_to_manifest_node (node i cs) = pack_node i.kind i (children_to_manifest cs)

  pub children_to_manifest : Children → ManifestChildren
  children_to_manifest end = manifest_end
  children_to_manifest (child c cs) =
      manifest_child (node_to_manifest_node c) (children_to_manifest cs)

-- manifestNodeToNode and its loop.
unfoldable mutual
  pub manifest_node_to_node : ManifestNode → Node
  manifest_node_to_node (manifest_node i cs) = unpack_node i.kind i (manifest_to_children cs)

  pub manifest_to_children : ManifestChildren → Children
  manifest_to_children manifest_end = end
  manifest_to_children (manifest_child c cs) =
      child (manifest_node_to_node c) (manifest_to_children cs)

-- Tree.ToManifest; a tree is its root.
unfoldable pub to_manifest : Option Node → Manifest
to_manifest none = record { root = none }
to_manifest (some n) = record { root = some (node_to_manifest_node n) }

-- BuildFromManifest, whose error is always nil; a nil manifest is `none`.
unfoldable pub build_from_manifest : Option Manifest → Option Node
build_from_manifest none = none
build_from_manifest (some m) = elim m.root [ none ↦ none | some n ↦ some (manifest_node_to_node n) ]
