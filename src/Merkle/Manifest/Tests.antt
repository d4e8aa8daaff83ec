-- ===== src/Merkle/Manifest/Tests.antt =====
-- A tree through a manifest.
use p2p_file_sync.Prelude.{ℕ, ◌≡◌, some, List, [], ◌∷◌}
use p2p_file_sync.Merkle.{Node, end, child}
use p2p_file_sync.Merkle.Build.{new_file_node, new_dir_node}
use p2p_file_sync.Merkle.Manifest.{build_from_manifest, to_manifest}
use p2p_file_sync.Merkle.Manifest.Transport.{
  build_from_manifest-to_manifest, new_file_node-WellKinded, new_dir_node-WellKinded,
}

abbrev identity : List ℕ → List ℕ
identity bytes = bytes

abbrev file_b : Node
file_b = new_file_node identity (98 ∷ []) 420 ((1 ∷ 2 ∷ []) ∷ (3 ∷ 4 ∷ []) ∷ [])

abbrev file_a : Node
file_a = new_file_node identity (97 ∷ []) 420 []

abbrev root : Node
root = new_dir_node identity (114 ∷ []) 493 (child file_b (child file_a end))

build_from_manifest-to_manifest_example :
    build_from_manifest (some (to_manifest (some root))) ≡ some root
build_from_manifest-to_manifest_example = build_from_manifest-to_manifest (some root) (
    new_dir_node-WellKinded identity (114 ∷ []) 493 (child file_b (child file_a end)) (
      new_file_node-WellKinded identity (98 ∷ []) 420 ((1 ∷ 2 ∷ []) ∷ (3 ∷ 4 ∷ []) ∷ []),
      (new_file_node-WellKinded identity (97 ∷ []) 420 [], tt),
    ))
