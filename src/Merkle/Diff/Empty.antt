-- ===== src/Merkle/Diff/Empty.antt =====
-- An empty file against an empty directory.
mod Tests
use p2p_file_sync.Prelude.{ℕ, ◌≡◌, refl, some, List, []}
use p2p_file_sync.Bytes.{bytes_equal, bytes_equal_refl}
use p2p_file_sync.Merkle.{end, join_path}
use p2p_file_sync.Merkle.Build.{
  new_file_node, new_dir_node, file_hash_input, dir_hash_input, sort_children,
}
use p2p_file_sync.Merkle.Diff.{diff_pair, diff_nodes}

-- diffNodes reports nothing for a file without chunks on the local side and a directory without
-- children on the remote side, whatever their names and modes: their hashes are the same.
pub diff_nodes-empty :
    (sha256 : List ℕ → List ℕ) (name other parent : List ℕ) (mode mode' : ℕ)
    → diff_nodes
        (new_file_node sha256 name mode [])
        (some (new_dir_node sha256 other mode' end))
        parent
      ≡ []
unfolding diff_nodes diff_pair new_file_node new_dir_node file_hash_input dir_hash_input
    sort_children
diff_nodes-empty sha256 name other parent mode mode' = rw (bytes_equal_refl (sha256 [])) refl
