-- ===== src/Proto/Nodes.antt =====
-- ManifestNode of the protocol, and its conversions in internal/net/sync.go.
use p2p_file_sync.Prelude.{ℕ, ◌≡◌, refl, ap, ap₂, Bool, true, false, List}
use p2p_file_sync.Merkle.{
  Node, NodeInfo, Children, NodeType, node_type_file, node_type_dir, node, end, child, is_dir,
}

pub record ProtoInfo : Type 0 where
  pub name : List ℕ
  pub directory : Bool
  pub hash : List ℕ
  pub mode : ℕ
  pub size : ℕ
  pub chunks : List (List ℕ)

mutual
  pub data ProtoNode : Type 0 where
    proto_node : ProtoInfo → ProtoChildren → ProtoNode

  pub data ProtoChildren : Type 0 where
    no_more : ProtoChildren
    proto_child : ProtoNode → ProtoChildren → ProtoChildren

-- `nodeType := ...; if mn.IsDir { ... }`
unfoldable pub node_type : Bool → NodeType
node_type true = node_type_dir
node_type false = node_type_file

unfoldable pub to_proto_info : NodeInfo → ProtoInfo
unfolding is_dir
to_proto_info i = record {
  name = i.name;
  directory = is_dir i.kind;
  hash = i.hash;
  mode = i.mode;
  size = i.size;
  chunks = i.chunks;
}

unfoldable pub of_proto_info : ProtoInfo → NodeInfo
unfolding node_type
of_proto_info p = record {
  name = p.name;
  kind = node_type p.directory;
  hash = p.hash;
  mode = p.mode;
  size = p.size;
  chunks = p.chunks;
}

-- nodeToManifest
unfoldable mutual
  pub node_to_manifest : Node → ProtoNode
  node_to_manifest (node i cs) = proto_node (to_proto_info i) (children_to_proto cs)

  pub children_to_proto : Children → ProtoChildren
  children_to_proto end = no_more
  children_to_proto (child c cs) = proto_child (node_to_manifest c) (children_to_proto cs)

-- manifestToNode
unfoldable mutual
  pub manifest_to_node : ProtoNode → Node
  manifest_to_node (proto_node p cs) = node (of_proto_info p) (proto_to_children cs)

  pub proto_to_children : ProtoChildren → Children
  proto_to_children no_more = end
  proto_to_children (proto_child c cs) = child (manifest_to_node c) (proto_to_children cs)

node_type-is_dir : (k : NodeType) → node_type (is_dir k) ≡ k
unfolding node_type is_dir
node_type-is_dir node_type_file = refl
node_type-is_dir node_type_dir = refl

of_proto_info-to_proto_info : (i : NodeInfo) → of_proto_info (to_proto_info i) ≡ i
unfolding of_proto_info to_proto_info
of_proto_info-to_proto_info i =
    ap (λ (k : NodeType). record i { kind = k }) (node_type-is_dir i.kind)

mutual
  unfolding node_to_manifest manifest_to_node

  node-back : (n : Node) → manifest_to_node (node_to_manifest n) ≡ n
  node-back (node i cs) = ap₂ node (of_proto_info-to_proto_info i) (children-back cs)

  children-back : (cs : Children) → proto_to_children (children_to_proto cs) ≡ cs
  children-back end = refl
  children-back (child c cs) = ap₂ child (node-back c) (children-back cs)

-- A tree that HandleManifestRequest sends is the tree that SyncWithPeer compares, every field of
-- every node.
pub manifest_to_node-node_to_manifest : (n : Node) → manifest_to_node (node_to_manifest n) ≡ n
manifest_to_node-node_to_manifest n = node-back n
