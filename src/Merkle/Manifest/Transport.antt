-- ===== src/Merkle/Manifest/Transport.antt =====
-- A tree survives the way through a manifest.
use p2p_file_sync.Prelude.{
  ℕ, ◌≡◌, refl, sym, ap, ap₂, ◌∙◌, Option, none, some, List, [], Bool-cases, inl, inr,
}
use p2p_file_sync.Merkle.{
  Node, NodeInfo, Children, NodeType, node_type_file, node_type_dir, node, end, child, info,
}
use p2p_file_sync.Merkle.Build.{
  string_less, insert_child, sort_children, new_file_node, new_dir_node,
}
use p2p_file_sync.Merkle.Manifest.{
  ManifestChildren, pack_node, unpack_node, node_to_manifest_node, manifest_node_to_node,
  children_to_manifest, manifest_to_children, to_manifest, build_from_manifest,
}

-- A file has no children, and a directory no chunks.
abbrev pub OwnFields : NodeType → NodeInfo → Children → Type 0
OwnFields node_type_file i cs = cs ≡ end
OwnFields node_type_dir i cs = i.chunks ≡ []

abbrev mutual
  pub WellKinded : Node → Type 0
  WellKinded (node i cs) = OwnFields i.kind i cs × WellKindedChildren cs

  pub WellKindedChildren : Children → Type 0
  WellKindedChildren end = Unit
  WellKindedChildren (child c cs) = WellKinded c × WellKindedChildren cs

abbrev pub WellKindedTree : Option Node → Type 0
WellKindedTree none = Unit
WellKindedTree (some n) = WellKinded n

unpack-pack :
    (k : NodeType) (i : NodeInfo) (packed : ManifestChildren) (cs : Children)
    → i.kind ≡ k
    → manifest_to_children packed ≡ cs
    → OwnFields k i cs
    → manifest_node_to_node (pack_node k i packed) ≡ node i cs
unfolding pack_node unpack_node manifest_node_to_node
unpack-pack node_type_file i packed cs e same own =
    ap (λ (k : NodeType). unpack_node k i end) e ∙ ap (node i) (sym own)
unpack-pack node_type_dir i packed cs e same own =
    ap (λ (k : NodeType). unpack_node k (record i { chunks = [] }) (manifest_to_children packed)) e
    ∙ ap₂ (λ (t : List (List ℕ)) (ds : Children). node (record i { chunks = t }) ds) (sym own) same

mutual
  unfolding node_to_manifest_node manifest_node_to_node

  unpack_all-pack_all :
      (n : Node) → WellKinded n → manifest_node_to_node (node_to_manifest_node n) ≡ n
  unpack_all-pack_all (node i cs) (own, below) =
      unpack-pack i.kind i (children_to_manifest cs) cs refl (unpack_children cs below) own

  unpack_children :
      (cs : Children) → WellKindedChildren cs → manifest_to_children (children_to_manifest cs) ≡ cs
  unpack_children end h = refl
  unpack_children (child c cs) (h, hs) = ap₂ child (unpack_all-pack_all c h) (unpack_children cs hs)

insert_child-WellKinded :
    (c : Node) (cs : Children)
    → WellKinded c
    → WellKindedChildren cs
    → WellKindedChildren (insert_child c cs)
unfolding insert_child
insert_child-WellKinded c end h hs = (h, hs)
insert_child-WellKinded c (child d ds) h hs =
    elim (Bool-cases (string_less (info d).name (info c).name)) [
      | inl e ↦ rw e (hs.0, insert_child-WellKinded c ds h hs.1)
      | inr e ↦ rw e (h, hs)
    ]

sort_children-WellKinded :
    (cs : Children) → WellKindedChildren cs → WellKindedChildren (sort_children cs)
unfolding sort_children
sort_children-WellKinded end h = tt
sort_children-WellKinded (child c cs) (h, hs) =
    insert_child-WellKinded c (sort_children cs) h (sort_children-WellKinded cs hs)

module _ (sha256 : List ℕ → List ℕ) where
  pub new_file_node-WellKinded :
      (name : List ℕ) (mode : ℕ) (chunks : List (List ℕ))
      → WellKinded (new_file_node sha256 name mode chunks)
  unfolding new_file_node
  new_file_node-WellKinded name mode chunks = (refl, tt)

  pub new_dir_node-WellKinded :
      (name : List ℕ) (mode : ℕ) (cs : Children)
      → WellKindedChildren cs
      → WellKinded (new_dir_node sha256 name mode cs)
  unfolding new_dir_node
  new_dir_node-WellKinded name mode cs h = (refl, sort_children-WellKinded cs h)

-- BuildFromManifest gives back the tree that ToManifest was given, every field of every node, where
-- no file has children and no directory has chunks.
pub build_from_manifest-to_manifest :
    (t : Option Node) → WellKindedTree t → build_from_manifest (some (to_manifest t)) ≡ t
unfolding to_manifest build_from_manifest
build_from_manifest-to_manifest none h = refl
build_from_manifest-to_manifest (some n) h = ap some (unpack_all-pack_all n h)
