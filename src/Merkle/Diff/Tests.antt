-- ===== src/Merkle/Diff/Tests.antt =====
-- Runs of Diff, and its theorems at two small trees. The hash is the identity.
use p2p_file_sync.Prelude.{ℕ, ◌≡◌, refl, some, List, [], ◌∷◌, get_or}
use p2p_file_sync.Bytes.{bytes_equal}
use p2p_file_sync.Merkle.{
  Node, NodeInfo, Children, node_type_file, node_type_dir, node, end, child, find_child, join_path,
  is_dir, same_type,
}
use p2p_file_sync.Merkle.Diff.{
  diff_type_added, diff_type_deleted, collected, modified, collect_all, diff_pair, diff_remote,
  diff_nodes, diff, file_chunks, has_chunk, find_differing_chunks, if_missing,
}
use p2p_file_sync.Merkle.Diff.Covered.{Covered}
use p2p_file_sync.Merkle.Diff.Collected.{Sound}

abbrev file : List ℕ → List ℕ → Node
file name chunk =
    node
      (record {
        name = name;
        kind = node_type_file;
        hash = chunk;
        mode = 420;
        size = 4096;
        chunks = chunk ∷ [];
      })
      end

-- On both sides the root is r; a differs, b is only local, c only remote.
abbrev local : Node
local =
    node
      (record {
        name = 114 ∷ [];
        kind = node_type_dir;
        hash = 1 ∷ [];
        mode = 493;
        size = 8192;
        chunks = [];
      })
      (child (file (97 ∷ []) (5 ∷ [])) (child (file (98 ∷ []) (6 ∷ [])) end))

abbrev remote : Node
remote =
    node
      (record {
        name = 114 ∷ [];
        kind = node_type_dir;
        hash = 2 ∷ [];
        mode = 493;
        size = 8192;
        chunks = [];
      })
      (child (file (97 ∷ []) (7 ∷ [])) (child (file (99 ∷ []) (8 ∷ [])) end))

diff_run :
    diff (some local) (some remote)
    ≡ modified
        (file (97 ∷ []) (5 ∷ []))
        (file (97 ∷ []) (7 ∷ []))
        (114 ∷ 47 ∷ 97 ∷ [])
        ((5 ∷ []) ∷ [])
      ∷ collected diff_type_added (file (98 ∷ []) (6 ∷ [])) (114 ∷ 47 ∷ 98 ∷ [])
      ∷ collected diff_type_deleted (file (99 ∷ []) (8 ∷ [])) (114 ∷ 47 ∷ 99 ∷ [])
      ∷ []
unfolding diff diff_nodes diff_pair diff_remote collect_all collected modified find_child join_path
    is_dir same_type file_chunks has_chunk find_differing_chunks if_missing bytes_equal
diff_run = refl

abbrev mutual
  AllNodes : (NodeInfo → Type 0) → Node → Type 0
  AllNodes P (node i cs) = P i × AllChildren P cs

  AllChildren : (NodeInfo → Type 0) → Children → Type 0
  AllChildren P end = Unit
  AllChildren P (child c cs) = AllNodes P c × AllChildren P cs

abbrev first_byte : NodeInfo → ℕ
first_byte i = get_or i.hash 0 0

abbrev only_a : Node
only_a =
    node
      (record {
        name = 114 ∷ [];
        kind = node_type_dir;
        hash = 8 ∷ [];
        mode = 493;
        size = 4096;
        chunks = [];
      })
      (child (file (97 ∷ []) (7 ∷ [])) end)
