-- ===== src/Command/Listed.antt =====
-- The chunks that the new and the changed files of a manifest list, and those that a store lacks.
use p2p_file_sync.Prelude.{
  ℕ, ◌≡◌, refl, ap, ap₂, sym, ◌∙◌, inl, inr, Bool, true, false, Bool-cases, List, [], ◌∷◌, ◌++◌,
  if-cases, if◌then◌else◌,
}
use p2p_file_sync.Bytes.{All}
use p2p_file_sync.Cas.Store.{Disk, stat, has}
use p2p_file_sync.Cas.Store.Paths.{IsHash, path_of}
use p2p_file_sync.Cas.Store.Puts.{stat-true}
use p2p_file_sync.Net.Served.{Found}
use p2p_file_sync.Proto.Nodes.{ProtoNode, ProtoChildren, proto_node, no_more, proto_child}
use p2p_file_sync.ProtoDiff.{Differences}
use p2p_file_sync.Command.{
  missing_chunks, collect_missing, collect_missing_below, collect_missing_all, needed_chunks,
}

-- The chunks that the files of a tree list.
unfoldable mutual
  pub listed_chunks : ProtoNode → List (List ℕ)
  listed_chunks (proto_node i cs) = i.chunks ++ listed_below cs

  pub listed_below : ProtoChildren → List (List ℕ)
  listed_below no_more = []
  listed_below (proto_child c cs) = listed_chunks c ++ listed_below cs

abbrev pub listed_all : List ProtoNode → List (List ℕ)
listed_all [] = []
listed_all (n ∷ ns) = listed_chunks n ++ listed_all ns

missing_cons :
    (P : List ℕ → Type 0) (b : Bool) (x : List ℕ) (rest : List (List ℕ))
    → All P (if b then rest else x ∷ rest)
    → All P rest × (b ≡ false → P x)
missing_cons P true x rest h = (h, λ e. cc)
missing_cons P false x rest h = (h.1, λ e. h.0)

if_append :
    (b : Bool) (h : List ℕ) (us vs : List (List ℕ))
    → (if b then us ++ vs else h ∷ (us ++ vs)) ≡ (if b then us else h ∷ us) ++ vs
if_append true h us vs = refl
if_append false h us vs = refl

module _ (f : List ℕ → Bool) (disk : Disk) where
  missing-append :
      (xs ys : List (List ℕ))
      → missing_chunks f disk (xs ++ ys) ≡ missing_chunks f disk xs ++ missing_chunks f disk ys
  unfolding missing_chunks
  missing-append [] ys = refl
  missing-append (x ∷ xs) ys =
      rw (missing-append xs ys)
        (if_append (has (f x) x disk) x (missing_chunks f disk xs) (missing_chunks f disk ys))

  mutual
    unfolding collect_missing listed_chunks missing_chunks

    collect_missing-listed :
        (n : ProtoNode) → collect_missing f disk n ≡ missing_chunks f disk (listed_chunks n)
    collect_missing-listed (proto_node i cs) =
        ap (λ (t : List (List ℕ)). missing_chunks f disk i.chunks ++ t) (below-listed cs)
        ∙ sym (missing-append i.chunks (listed_below cs))

    below-listed :
        (cs : ProtoChildren)
        → collect_missing_below f disk cs ≡ missing_chunks f disk (listed_below cs)
    below-listed no_more = refl
    below-listed (proto_child c cs) =
        ap₂ (λ (t u : List (List ℕ)). t ++ u) (collect_missing-listed c) (below-listed cs)
        ∙ sym (missing-append (listed_chunks c) (listed_below cs))

  all-listed :
      (ns : List ProtoNode) → collect_missing_all f disk ns ≡ missing_chunks f disk (listed_all ns)
  unfolding collect_missing_all missing_chunks
  all-listed [] = refl
  all-listed (n ∷ ns) =
      ap₂ (λ (t u : List (List ℕ)). t ++ u) (collect_missing-listed n) (all-listed ns)
      ∙ sym (missing-append (listed_chunks n) (listed_all ns))

  has-Found : (h : List ℕ) (b : Bool) → has b h disk ≡ true → Found disk h
  unfolding has stat
  has-Found h b e = stat-true b (disk (path_of h)) e

  -- The chunks that are missing are among those that are listed; the others are there.
  pub missing-All :
      (P : List ℕ → Type 0) (hs : List (List ℕ)) → All P hs → All P (missing_chunks f disk hs)
  unfolding missing_chunks
  missing-All P [] h = tt
  missing-All P (x ∷ hs) h =
      if-cases (λ (t : List (List ℕ)). All P t) (has (f x) x disk) _ _ (λ e. missing-All P hs h.1)
        (λ e. (h.0, missing-All P hs h.1))

  pub missing-Found :
      (disk' : Disk) (hs : List (List ℕ))
      → All IsHash hs
      → ((h : List ℕ) → IsHash h → Found disk h → Found disk' h)
      → All (Found disk') (missing_chunks f disk hs)
      → All (Found disk') hs
  unfolding missing_chunks
  missing-Found disk' [] is kept got = tt
  missing-Found disk' (x ∷ hs) is kept got =
      let (rest, here) =
        missing_cons (Found disk') (has (f x) x disk) x (missing_chunks f disk hs) got in
      (
        elim (Bool-cases (has (f x) x disk)) [
          | inl e ↦ kept x is.0 (has-Found x (f x) e)
          | inr e ↦ here e
        ],
        missing-Found disk' hs is.1 kept rest,
      )

  pub needed-listed :
      (d : Differences)
      → needed_chunks f disk d ≡ missing_chunks f disk (listed_all d.added ++ listed_all d.modified)
  unfolding needed_chunks
  needed-listed d =
      ap₂ (λ (t u : List (List ℕ)). t ++ u) (all-listed d.added) (all-listed d.modified)
      ∙ sym (missing-append (listed_all d.added) (listed_all d.modified))
