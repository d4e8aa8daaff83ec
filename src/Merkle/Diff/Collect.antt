-- ===== src/Merkle/Diff/Collect.antt =====
-- Where the results of a node's children stand among those of the node.
use p2p_file_sync.Prelude.{
  ℕ, ◌≡◌, refl, sym, ap, ◌∙◌, subst, ◌⊎◌, inl, inr, Bool-cases, Option-cases, Option, none, some,
  some-cancel, List, [], ◌∷◌,
}
use p2p_file_sync.Bytes.{Any, Any-left, Any-right, bytes_equal, bytes_equal→eq}
use p2p_file_sync.Merkle.{
  Node, Children, node, end, child, info, find_child, at, join_path, join_all,
}
use p2p_file_sync.Merkle.Diff.{
  DiffType, DiffResult, diff_type_deleted, collected, collect_all, collect_children, if_missing,
  diff_remote, diff_locals, diff_nodes,
}

pub at-none : (names : List (List ℕ)) → at none names ≡ none
at-none [] = refl
at-none (name ∷ names) = at-none names

pub find_child_end : (name : List ℕ) (c : Node) → ¬ (find_child name end ≡ some c)
unfolding find_child
find_child_end name c h = cc

-- A child of a name is the last one that has it.
pub find_child_inv :
    (name : List ℕ) (b : Node) (bs : Children) (c : Node)
    → find_child name (child b bs) ≡ some c
    → (find_child name bs ≡ some c)
      ⊎ ((find_child name bs ≡ none) × (b ≡ c) × ((info b).name ≡ name))
unfolding find_child
find_child_inv name b bs c h = elim (Option-cases (find_child name bs)) [
  | inl missing ↦ elim (Bool-cases (bytes_equal (info b).name name)) [
    | inl e ↦ inr (missing, some-cancel (rw (missing, e) at h), bytes_equal→eq _ _ e)
    | inr e ↦ cc (rw (missing, e) at h)
  ]
  | inr (d, found) ↦ inl (found ∙ rw found at h)
]

pub find_child_name :
    (name : List ℕ) (cs : Children) (c : Node) → find_child name cs ≡ some c → (info c).name ≡ name
find_child_name name end c h = absurd (find_child_end name c h)
find_child_name name (child b bs) c h = elim (find_child_inv name b bs c h) [
  | inl found ↦ find_child_name name bs c found
  | inr (missing, same, named) ↦ ap (λ (n : Node). (info n).name) (sym same) ∙ named
]

at-none-some : (names : List (List ℕ)) (m : Node) → ¬ (at none names ≡ some m)
at-none-some names m h = cc (at-none names, h)

module _ (P : DiffResult → Type 0) where
  if_missing-Any :
      (o : Option Node) (here : List DiffResult) → o ≡ none → Any P here → Any P (if_missing o here)
  unfolding if_missing
  if_missing-Any none here missing a = a
  if_missing-Any (some d) here missing a = cc

  collect_children-Any :
      (t : DiffType) (name : List ℕ) (cs : Children) (c : Node) (path : List ℕ)
      → find_child name cs ≡ some c
      → Any P (collect_all t c path)
      → Any P (collect_children t cs path)
  unfolding collect_all
  collect_children-Any t name end c path h a = absurd (find_child_end name c h)
  collect_children-Any t name (child b bs) c path h a = elim (find_child_inv name b bs c h) [
    | inl found ↦
        Any-right P (collect_all t b path) (collect_children t bs path)
          (collect_children-Any t name bs c path found a)
    | inr (missing, same, named) ↦
        Any-left P (collect_all t b path) (collect_children t bs path)
          (subst (λ (n : Node). Any P (collect_all t n path)) (sym same) a)
  ]

  -- Every node below a node is collected with it, under its path.
  pub collect_all-at :
      (t : DiffType) (n m : Node) (parent : List ℕ) (names : List (List ℕ))
      → at (some n) names ≡ some m
      → P (collected t m (join_all (join_path parent (info n).name) names))
      → Any P (collect_all t n parent)
  unfolding collect_all
  collect_all-at t (node i cs) m parent [] h p =
      inl
        (subst (λ (k : Node). P (collected t k (join_path parent i.name))) (sym (some-cancel h)) p)
  collect_all-at t (node i cs) m parent (name ∷ names) h p =
      inr (elim (Option-cases (find_child name cs)) [
        | inl missing ↦ absurd (at-none-some names m (rw missing at h))
        | inr (c, found) ↦ collect_children-Any t name cs c (join_path parent i.name) found (
            collect_all-at t c m (join_path parent i.name) names (rw found at h) (
              subst
                (λ (x : List ℕ).
                  P (collected t m (join_all (join_path (join_path parent i.name) x) names)))
                (sym (find_child_name name cs c found)) p))
      ])

  -- What a child of both sides, or of the local side only, yields is among the results.
  pub diff_locals-Any :
      (name : List ℕ) (cs remotes : Children) (c : Node) (path : List ℕ)
      → find_child name cs ≡ some c
      → Any P (diff_nodes c (find_child name remotes) path)
      → Any P (diff_locals cs remotes path)
  unfolding diff_nodes
  diff_locals-Any name end remotes c path h a = absurd (find_child_end name c h)
  diff_locals-Any name (child b bs) remotes c path h a = elim (find_child_inv name b bs c h) [
    | inl found ↦
        Any-right P
          (if_missing (find_child (info b).name bs)
            (diff_nodes b (find_child (info b).name remotes) path))
          (diff_locals bs remotes path) (diff_locals-Any name bs remotes c path found a)
    | inr (missing, same, named) ↦ Any-left P _ (diff_locals bs remotes path) (
        if_missing-Any (find_child (info b).name bs) _
          (ap (λ (x : List ℕ). find_child x bs) named ∙ missing)
          (subst (λ (x : List ℕ). Any P (diff_nodes b (find_child x remotes) path)) (sym named)
            (subst (λ (n : Node). Any P (diff_nodes n (find_child name remotes) path)) (sym same)
              a)))
  ]

  -- What a child of the remote side only yields is among the results.
  pub diff_remote-Any :
      (name : List ℕ) (locals cs : Children) (c : Node) (path : List ℕ)
      → find_child name locals ≡ none
      → find_child name cs ≡ some c
      → Any P (collect_all diff_type_deleted c path)
      → Any P (diff_remote locals cs path)
  unfolding diff_remote
  diff_remote-Any name locals end c path absent h a = absurd (find_child_end name c h)
  diff_remote-Any name locals (child b bs) c path absent h a = elim (find_child_inv name b bs c h) [
    | inl found ↦
        Any-right P
          (if_missing (find_child (info b).name bs)
            (if_missing (find_child (info b).name locals) (collect_all diff_type_deleted b path)))
          (diff_remote locals bs path) (diff_remote-Any name locals bs c path absent found a)
    | inr (missing, same, named) ↦ Any-left P _ (diff_remote locals bs path) (
        if_missing-Any (find_child (info b).name bs) _
          (ap (λ (x : List ℕ). find_child x bs) named ∙ missing)
          (if_missing-Any (find_child (info b).name locals) _
            (ap (λ (x : List ℕ). find_child x locals) named ∙ absent)
            (subst (λ (n : Node). Any P (collect_all diff_type_deleted n path)) (sym same) a)))
  ]
