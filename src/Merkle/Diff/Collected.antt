-- ===== src/Merkle/Diff/Collected.antt =====
-- Every result of collectAll is a node of its tree.
use p2p_file_sync.Prelude.{
  ℕ, ◌≡◌, refl, sym, ap, ◌∙◌, subst, inl, inr, Option-cases, Option, none, some, List, [], ◌∷◌,
}
use p2p_file_sync.Bytes.{All, All-map, All-append, bytes_equal_refl}
use p2p_file_sync.Merkle.{
  Node, NodeInfo, Children, node, end, child, info, find_child, at, join_path, join_all,
}
use p2p_file_sync.Merkle.Diff.{
  DiffType, DiffResult, diff_type_added, diff_type_deleted, collected, collect_all,
  collect_children,
}
use p2p_file_sync.Merkle.Diff.Collect.{find_child_inv, find_child_end, at-none}
use p2p_file_sync.Merkle.Diff.Covered.{Differ, Expected, Expected-added, Expected-deleted}

-- No two children of a node have the same name.
abbrev mutual
  pub Unique : Node → Type 0
  Unique (node i cs) = UniqueChildren cs

  pub UniqueChildren : Children → Type 0
  UniqueChildren end = Unit
  UniqueChildren (child c cs) =
      (find_child (info c).name cs ≡ none) × (Unique c × UniqueChildren cs)

abbrev pub UniqueTree : Option Node → Type 0
UniqueTree none = Unit
UniqueTree (some n) = Unique n

-- A result is the one for what differs at some path.
pub record Sound (l r : Option Node) (path : List ℕ) (d : DiffResult) : Type 0 where
  pub names : List (List ℕ)
  pub differ : Differ (at l names) (at r names)
  pub expected : Expected (at l names) (at r names) (join_all path names) d

-- The children `cs` are among those of which `all` is the list.
abbrev pub Among : Children → Children → Type 0
Among cs all =
    (name : List ℕ) (c : Node) → find_child name cs ≡ some c → find_child name all ≡ some c

pub find_child_rest :
    (name : List ℕ) (b : Node) (cs : Children) (c : Node)
    → find_child name cs ≡ some c
    → find_child name (child b cs) ≡ some c
unfolding find_child
find_child_rest name b cs c h = rw h refl

pub find_child_first :
    (b : Node) (cs : Children)
    → find_child (info b).name cs ≡ none
    → find_child (info b).name (child b cs) ≡ some b
unfolding find_child
find_child_first b cs h = rw (h, bytes_equal_refl (info b).name) refl

-- A collected result is a node below.
record Collected (t : DiffType) (o : Option Node) (path : List ℕ) (d : DiffResult) : Type 0 where
  names : List (List ℕ)
  found : Node
  where_found : at o names ≡ some found
  result : d ≡ collected t found (join_all path names)

mutual
  unfolding collect_all

  collect_all-Collected :
      (t : DiffType) (n : Node) (parent : List ℕ)
      → Unique n
      → All (Collected t (some n) (join_path parent (info n).name)) (collect_all t n parent)
  collect_all-Collected t (node i cs) parent u = (
    record { names = []; found = node i cs; where_found = refl; result = refl },
    collect_children-Collected t i cs cs (join_path parent i.name) u (λ name c h. h),
  )

  collect_children-Collected :
      (t : DiffType) (i : NodeInfo) (cs all : Children) (path : List ℕ)
      → UniqueChildren cs
      → Among cs all
      → All (Collected t (some (node i all)) path) (collect_children t cs path)
  collect_children-Collected t i end all path u among = tt
  collect_children-Collected t i (child c cs) all path u among =
      All-append (Collected t (some (node i all)) path) (collect_all t c path)
        (collect_children t cs path)
        (All-map (Collected t (some c) (join_path path (info c).name))
          (Collected t (some (node i all)) path)
          (λ d k. record {
            names = (info c).name ∷ k.names;
            found = k.found;
            where_found =
                ap (λ (o : Option Node). at o k.names)
                  (among (info c).name c (find_child_first c cs u.0))
                ∙ k.where_found;
            result = k.result;
          })
          (collect_all t c path) (collect_all-Collected t c path u.1.0))
        (collect_children-Collected t i cs all path u.1.1
          (λ name e h. among name e (find_child_rest name c cs e h)))

Unique-found :
    (name : List ℕ) (cs : Children) (c : Node)
    → UniqueChildren cs
    → find_child name cs ≡ some c
    → Unique c
Unique-found name end c u h = absurd (find_child_end name c h)
Unique-found name (child b bs) c u h = elim (find_child_inv name b bs c h) [
  | inl found ↦ Unique-found name bs c u.1.1 found
  | inr (missing, same, named) ↦ subst Unique same u.1.0
]

pub Unique-child :
    (name : List ℕ) (cs : Children) → UniqueChildren cs → UniqueTree (find_child name cs)
Unique-child name cs u = elim (Option-cases (find_child name cs)) [
  | inl missing ↦ subst UniqueTree (sym missing) tt
  | inr (c, found) ↦ subst UniqueTree (sym found) (Unique-found name cs c u found)
]

added-Sound :
    (l r : Option Node) (path : List ℕ) (names : List (List ℕ)) (m : Node) (d : DiffResult)
    → at l names ≡ some m
    → at r names ≡ none
    → d ≡ collected diff_type_added m (join_all path names)
    → Sound l r path d
added-Sound l r path names m d e f h = record {
  names = names;
  differ =
      subst (λ (o : Option Node). Differ o (at r names)) (sym e)
        (subst (λ (o : Option Node). Differ (some m) o) (sym f) tt);
  expected =
      subst (Expected (at l names) (at r names) (join_all path names)) (sym h)
        (Expected-added (at l names) (at r names) m (join_all path names) e f);
}

deleted-Sound :
    (l r : Option Node) (path : List ℕ) (names : List (List ℕ)) (m : Node) (d : DiffResult)
    → at l names ≡ none
    → at r names ≡ some m
    → d ≡ collected diff_type_deleted m (join_all path names)
    → Sound l r path d
deleted-Sound l r path names m d e f h = record {
  names = names;
  differ =
      subst (λ (o : Option Node). Differ o (at r names)) (sym e)
        (subst (λ (o : Option Node). Differ none o) (sym f) tt);
  expected =
      subst (Expected (at l names) (at r names) (join_all path names)) (sym h)
        (Expected-deleted (at l names) (at r names) m (join_all path names) e f);
}

pub collect_all-added :
    (n : Node) (parent : List ℕ)
    → Unique n
    → All
        (Sound (some n) none (join_path parent (info n).name))
        (collect_all diff_type_added n parent)
collect_all-added n parent u =
    let path = join_path parent (info n).name in
    All-map (Collected diff_type_added (some n) path) (Sound (some n) none path)
      (λ d k.
        added-Sound (some n) none path k.names k.found d k.where_found (at-none k.names) k.result)
      (collect_all diff_type_added n parent) (collect_all-Collected diff_type_added n parent u)

pub collect_all-deleted :
    (n : Node) (parent : List ℕ)
    → Unique n
    → All
        (Sound none (some n) (join_path parent (info n).name))
        (collect_all diff_type_deleted n parent)
collect_all-deleted n parent u =
    let path = join_path parent (info n).name in
    All-map (Collected diff_type_deleted (some n) path) (Sound none (some n) path)
      (λ d k.
        deleted-Sound none (some n) path k.names k.found d (at-none k.names) k.where_found k.result)
      (collect_all diff_type_deleted n parent) (collect_all-Collected diff_type_deleted n parent u)
