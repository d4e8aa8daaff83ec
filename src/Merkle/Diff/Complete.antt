-- ===== src/Merkle/Diff/Complete.antt =====
-- Diff finds every difference of two trees.
use p2p_file_sync.Prelude.{
  ℕ, ◌≡◌, refl, sym, ◌∙◌, inl, inr, true, false, ◌&&◌, Bool-cases, Option, none, some, List, [],
  ◌∷◌,
}
use p2p_file_sync.Bytes.{bytes_equal}
use p2p_file_sync.Merkle.{
  Node, NodeType, node_type_file, node_type_dir, info, at, is_dir, same_type,
}
use p2p_file_sync.Merkle.Diff.{DiffResult, modified, diff_pair}
use p2p_file_sync.Merkle.Diff.Covered.{both_dirs, changed_chunks, Covered}

both_dirs_lem : (k j : NodeType) → (is_dir k && is_dir j) ≡ (same_type k j && is_dir k)
unfolding is_dir same_type
both_dirs_lem node_type_file node_type_file = refl
both_dirs_lem node_type_file node_type_dir = refl
both_dirs_lem node_type_dir node_type_file = refl
both_dirs_lem node_type_dir node_type_dir = refl

-- The three outcomes of diffNodes for two nodes that are there.
pub diff_pair-below :
    (n m : Node) (path : List ℕ) (below : List DiffResult)
    → bytes_equal (info n).hash (info m).hash ≡ false
    → both_dirs n m ≡ true
    → diff_pair n m path below ≡ below
unfolding diff_pair
diff_pair-below n m path below e both =
    let h = sym (both_dirs_lem (info n).kind (info m).kind) ∙ both in
    elim (Bool-cases (same_type (info n).kind (info m).kind)) [
      | inl same ↦ elim (Bool-cases (is_dir (info n).kind)) [
        | inl d ↦ rw (e, same, d) refl
        | inr d ↦ cc (rw (same, d) at h)
      ]
      | inr other ↦ cc (rw other at h)
    ]

pub diff_pair-modified :
    (n m : Node) (path : List ℕ) (below : List DiffResult)
    → bytes_equal (info n).hash (info m).hash ≡ false
    → both_dirs n m ≡ false
    → diff_pair n m path below ≡ modified n m path (changed_chunks n m) ∷ []
unfolding diff_pair
diff_pair-modified n m path below e both =
    let h = sym (both_dirs_lem (info n).kind (info m).kind) ∙ both in
    elim (Bool-cases (same_type (info n).kind (info m).kind)) [
      | inl same ↦ elim (Bool-cases (is_dir (info n).kind)) [
        | inl d ↦ cc (rw (same, d) at h)
        | inr d ↦ rw (e, same, d) refl
      ]
      | inr other ↦ rw (e, other) refl
    ]

-- The path of the root, with which every path of the results starts.
abbrev pub root_path : Option Node → Option Node → List ℕ
root_path none none = []
root_path none (some m) = (info m).name
root_path (some n) r = (info n).name
