-- ===== src/Merkle/Diff/Covered.antt =====
-- What it means that a result of Diff is right for a path, and the trees that one side lacks.
use p2p_file_sync.Prelude.{
  ℕ, ◌≡◌, refl, sym, ap, subst, ◌⊎◌, inl, inr, Bool, true, false, ◌&&◌, Option-cases, Option, none,
  some, some-cancel, List, [], ◌∷◌, ◌++◌, append-nil, if◌then◌else◌,
}
use p2p_file_sync.Bytes.{Any, bytes_equal}
use p2p_file_sync.Merkle.{Node, info, child_of, at, join_path, join_all, is_dir, same_type}
use p2p_file_sync.Merkle.Diff.{
  DiffResult, diff_type_added, diff_type_deleted, diff_type_modified, collected, modified,
  collect_all, find_differing_chunks,
}
use p2p_file_sync.Merkle.Diff.Collect.{at-none, collect_all-at}

abbrev pub both_dirs : Node → Node → Bool
both_dirs n m = is_dir (info n).kind && is_dir (info m).kind

-- What is at a path on the two sides differs, and is not a pair of directories.
abbrev pub Differ : Option Node → Option Node → Type 0
Differ none none = ⊥
Differ none (some m) = Unit
Differ (some n) none = Unit
Differ (some n) (some m) =
    (bytes_equal (info n).hash (info m).hash ≡ false) × (both_dirs n m ≡ false)

abbrev pub SameHash : Option Node → Option Node → Type 0
SameHash none none = Unit
SameHash none (some m) = ⊥
SameHash (some n) none = ⊥
SameHash (some n) (some m) = bytes_equal (info n).hash (info m).hash ≡ true

-- Nodes at the same path that have the same hash have the same names and hashes below them.
abbrev pub NoCollision : Option Node → Option Node → Type 0
NoCollision l r =
    (above below : List (List ℕ)) (n m : Node)
    → at l above ≡ some n
    → at r above ≡ some m
    → bytes_equal (info n).hash (info m).hash ≡ true
    → SameHash (at (some n) below) (at (some m) below)

-- The chunks that a modified node lists: those of a file, unless its type has changed.
abbrev pub changed_chunks : Node → Node → List (List ℕ)
changed_chunks n m =
    if same_type (info n).kind (info m).kind
    then find_differing_chunks (info n).chunks (info m).chunks
    else []

-- The result for what is at a path on the two sides.
abbrev pub Expected : Option Node → Option Node → List ℕ → DiffResult → Type 0
Expected none none path d = ⊥
Expected none (some m) path d = d ≡ collected diff_type_deleted m path
Expected (some n) none path d = d ≡ collected diff_type_added n path
Expected (some n) (some m) path d = d ≡ modified n m path (changed_chunks n m)

-- The result for a path, or for a modified node above it.
pub record Covered (l r : Option Node) (path : List ℕ) (names : List (List ℕ)) (d : DiffResult)
    : Type 0 where
  pub above : List (List ℕ)
  pub below : List (List ℕ)
  pub split : names ≡ above ++ below
  pub expected : Expected (at l above) (at r above) (join_all path above) d
  pub why : (below ≡ []) ⊎ (d.diff_type ≡ diff_type_modified)

pub SameHash-Differ : (o q : Option Node) → SameHash o q → ¬ (Differ o q)
SameHash-Differ none none s d = d
SameHash-Differ none (some m) s d = s
SameHash-Differ (some n) none s d = s
SameHash-Differ (some n) (some m) s d = cc (s, d.0)

-- A result for exactly the path.
pub here :
    (l r : Option Node) (path : List ℕ) (names : List (List ℕ)) (d : DiffResult)
    → Expected (at l names) (at r names) (join_all path names) d
    → Covered l r path names d
here l r path names d e = record {
  above = names;
  below = [];
  split = sym (append-nil names);
  expected = e;
  why = inl refl;
}

-- A result below a child is one below its parent.
pub deeper :
    (l r : Option Node) (path name : List ℕ) (names : List (List ℕ)) (d : DiffResult)
    → Covered (child_of name l) (child_of name r) (join_path path name) names d
    → Covered l r path (name ∷ names) d
deeper l r path name names d c = record {
  above = name ∷ c.above;
  below = c.below;
  split = ap (λ (t : List (List ℕ)). name ∷ t) c.split;
  expected = c.expected;
  why = c.why;
}

pub Expected-deleted :
    (o q : Option Node) (m : Node) (path : List ℕ)
    → o ≡ none
    → q ≡ some m
    → Expected o q path (collected diff_type_deleted m path)
Expected-deleted none none m path e f = cc
Expected-deleted none (some k) m path e f =
    ap (λ (t : Node). collected diff_type_deleted t path) (sym (some-cancel f))
Expected-deleted (some n) q m path e f = cc

pub Expected-added :
    (o q : Option Node) (m : Node) (path : List ℕ)
    → o ≡ some m
    → q ≡ none
    → Expected o q path (collected diff_type_added m path)
Expected-added none q m path e f = cc
Expected-added (some k) none m path e f =
    ap (λ (t : Node). collected diff_type_added t path) (sym (some-cancel e))
Expected-added (some k) (some n) m path e f = cc

pub complete_deleted :
    (names : List (List ℕ)) (m : Node) (parent : List ℕ)
    → Differ (at none names) (at (some m) names)
    → Any
        (Covered none (some m) (join_path parent (info m).name) names)
        (collect_all diff_type_deleted m parent)
complete_deleted names m parent v = elim (Option-cases (at (some m) names)) [
  | inl missing ↦ absurd (
      subst (λ (q : Option Node). Differ none q) missing
        (subst (λ (o : Option Node). Differ o (at (some m) names)) (at-none names) v))
  | inr (k, found) ↦
      let path = join_path parent (info m).name in
      collect_all-at (Covered none (some m) path names) diff_type_deleted m k parent names found (
        here none (some m) path names (collected diff_type_deleted k (join_all path names)) (
          Expected-deleted (at none names) (at (some m) names) k (join_all path names)
            (at-none names) found))
]

pub complete_added :
    (names : List (List ℕ)) (n : Node) (parent : List ℕ)
    → Differ (at (some n) names) (at none names)
    → Any
        (Covered (some n) none (join_path parent (info n).name) names)
        (collect_all diff_type_added n parent)
complete_added names n parent v = elim (Option-cases (at (some n) names)) [
  | inl missing ↦ absurd (
      subst (λ (o : Option Node). Differ o none) missing
        (subst (λ (q : Option Node). Differ (at (some n) names) q) (at-none names) v))
  | inr (k, found) ↦
      let path = join_path parent (info n).name in
      collect_all-at (Covered (some n) none path names) diff_type_added n k parent names found (
        here (some n) none path names (collected diff_type_added k (join_all path names)) (
          Expected-added (at (some n) names) (at none names) k (join_all path names) found
            (at-none names)))
]
