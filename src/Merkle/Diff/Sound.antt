-- ===== src/Merkle/Diff/Sound.antt =====
-- Every result of Diff is a difference of the two trees.
use p2p_file_sync.Prelude.{
  ℕ, ◌≡◌, refl, sym, subst, inl, inr, true, Bool-cases, Option, none, some, List, [], ◌∷◌,
}
use p2p_file_sync.Bytes.{All, All-map, All-append, bytes_equal}
use p2p_file_sync.Merkle.{
  Node, NodeInfo, Children, node, end, child, info, find_child, child_of, join_path,
}
use p2p_file_sync.Merkle.Diff.{
  DiffResult, diff_type_deleted, collect_all, if_missing, diff_pair, diff_remote, diff_locals,
  diff_nodes, diff,
}
use p2p_file_sync.Merkle.Diff.Covered.{both_dirs}
use p2p_file_sync.Merkle.Diff.Complete.{diff_pair-below, diff_pair-modified, root_path}
use p2p_file_sync.Merkle.Diff.Collected.{
  Unique, UniqueChildren, UniqueTree, Sound, Among, find_child_rest, find_child_first, Unique-child,
  collect_all-added, collect_all-deleted,
}

-- A result below a child is one below its parent.
raised :
    (l r : Option Node) (path name : List ℕ) (o q : Option Node) (xs : List DiffResult)
    → child_of name l ≡ o
    → child_of name r ≡ q
    → All (Sound o q (join_path path name)) xs
    → All (Sound l r path) xs
raised l r path name o q xs e f h =
    All-map (Sound o q (join_path path name)) (Sound l r path)
      (λ d k.
        let k' : Sound (child_of name l) (child_of name r) (join_path path name) d =
          subst (λ (a : Option Node). Sound a (child_of name r) (join_path path name) d) (sym e)
            (subst (λ (a : Option Node). Sound o a (join_path path name) d) (sym f) k) in
        record { names = name ∷ k'.names; differ = k'.differ; expected = k'.expected })
      xs h

if_missing-All :
    (P : DiffResult → Type 0) (o : Option Node) (here : List DiffResult)
    → (o ≡ none → All P here)
    → All P (if_missing o here)
unfolding if_missing
if_missing-All P none here h = h refl
if_missing-All P (some d) here h = tt

diff_remote-Sound :
    (i j : NodeInfo) (cs ds all : Children) (path : List ℕ)
    → UniqueChildren ds
    → Among ds all
    → All (Sound (some (node i cs)) (some (node j all)) path) (diff_remote cs ds path)
unfolding diff_remote
diff_remote-Sound i j cs end all path u among = tt
diff_remote-Sound i j cs (child c ds) all path u among =
    let l : Option Node = some (node i cs) in
    let r : Option Node = some (node j all) in
    All-append (Sound l r path) _ (diff_remote cs ds path)
      (if_missing-All (Sound l r path) (find_child (info c).name ds) _ (λ last.
        if_missing-All (Sound l r path) (find_child (info c).name cs)
          (collect_all diff_type_deleted c path)
          (λ absent.
            raised l r path (info c).name none (some c) (collect_all diff_type_deleted c path)
              absent (among (info c).name c (find_child_first c ds last))
              (collect_all-deleted c path u.1.0))))
      (diff_remote-Sound i j cs ds all path u.1.1
        (λ name e h. among name e (find_child_rest name c ds e h)))

diff_pair-same :
    (n m : Node) (path : List ℕ) (below : List DiffResult)
    → bytes_equal (info n).hash (info m).hash ≡ true
    → diff_pair n m path below ≡ []
unfolding diff_pair
diff_pair-same n m path below e = rw e refl

diff_pair-Sound :
    (n m : Node) (path : List ℕ) (below : List DiffResult)
    → All (Sound (some n) (some m) path) below
    → All (Sound (some n) (some m) path) (diff_pair n m path below)
diff_pair-Sound n m path below h = elim (Bool-cases (bytes_equal (info n).hash (info m).hash)) [
  | inl e ↦ subst (All (Sound (some n) (some m) path)) (sym (diff_pair-same n m path below e)) tt
  | inr e ↦ elim (Bool-cases (both_dirs n m)) [
    | inl both ↦
        subst (All (Sound (some n) (some m) path)) (sym (diff_pair-below n m path below e both)) h
    | inr leaf ↦
        subst (All (Sound (some n) (some m) path)) (sym (diff_pair-modified n m path below e leaf))
          (record { names = []; differ = (e, leaf); expected = refl }, tt)
  ]
]

mutual
  unfolding diff_nodes

  diff_nodes-Sound :
      (n : Node) (r : Option Node) (parent : List ℕ)
      → Unique n
      → UniqueTree r
      → All (Sound (some n) r (join_path parent (info n).name)) (diff_nodes n r parent)
  diff_nodes-Sound (node i cs) none parent u v = collect_all-added (node i cs) parent u
  diff_nodes-Sound (node i cs) (some (node j ds)) parent u v =
      let path = join_path parent i.name in
      diff_pair-Sound (node i cs) (node j ds) path _ (
        All-append (Sound (some (node i cs)) (some (node j ds)) path) (diff_locals cs ds path)
          (diff_remote cs ds path) (diff_locals-Sound i j cs cs ds path u v (λ name c h. h))
          (diff_remote-Sound i j cs ds ds path v (λ name c h. h)))

  diff_locals-Sound :
      (i j : NodeInfo) (cs all ds : Children) (path : List ℕ)
      → UniqueChildren cs
      → UniqueChildren ds
      → Among cs all
      → All (Sound (some (node i all)) (some (node j ds)) path) (diff_locals cs ds path)
  diff_locals-Sound i j end all ds path u v among = tt
  diff_locals-Sound i j (child c cs) all ds path u v among =
      let l : Option Node = some (node i all) in
      let r : Option Node = some (node j ds) in
      let other = find_child (info c).name ds in
      All-append (Sound l r path) _ (diff_locals cs ds path)
        (if_missing-All (Sound l r path) (find_child (info c).name cs) (diff_nodes c other path)
          (λ last.
            raised l r path (info c).name (some c) other (diff_nodes c other path)
              (among (info c).name c (find_child_first c cs last)) refl
              (diff_nodes-Sound c other path u.1.0 (Unique-child (info c).name ds v))))
        (diff_locals-Sound i j cs all ds path u.1.1 v
          (λ name e h. among name e (find_child_rest name c cs e h)))

pub diff-Sound :
    (l r : Option Node) → UniqueTree l → UniqueTree r → All (Sound l r (root_path l r)) (diff l r)
unfolding diff join_path
diff-Sound none none u v = tt
diff-Sound none (some m) u v = collect_all-deleted m [] v
diff-Sound (some n) none u v = collect_all-added n [] u
diff-Sound (some n) (some m) u v = elim (Bool-cases (bytes_equal (info n).hash (info m).hash)) [
  | inl e ↦ rw e tt
  | inr e ↦ rw e (diff_nodes-Sound n (some m) [] u v)
]
