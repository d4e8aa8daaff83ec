-- ===== src/Merkle/Diff/Empty/Tests.antt =====
-- The same name, a file here and a directory there.
use p2p_file_sync.Prelude.{ℕ, ◌≡◌, some, List, [], ◌∷◌}
use p2p_file_sync.Merkle.{end}
use p2p_file_sync.Merkle.Build.{new_file_node, new_dir_node}
use p2p_file_sync.Merkle.Diff.{diff_nodes}
use p2p_file_sync.Merkle.Diff.Empty.{diff_nodes-empty}

abbrev identity : List ℕ → List ℕ
identity bytes = bytes

diff_nodes-empty_example :
    diff_nodes
      (new_file_node identity (97 ∷ []) 420 [])
      (some (new_dir_node identity (97 ∷ []) 493 end))
      []
    ≡ []
diff_nodes-empty_example = diff_nodes-empty identity (97 ∷ []) (97 ∷ []) [] 420 493
