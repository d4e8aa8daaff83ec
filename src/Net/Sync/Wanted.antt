-- ===== src/Net/Sync/Wanted.antt =====
-- Which chunks SyncWithPeer asks for.
use p2p_file_sync.Prelude.{
  ℕ, ◌≡◌, refl, sym, ap, subst, ◌∙◌, ◌⊎◌, inl, inr, Bool, true, false, ◌||◌, Option, none, some,
  List, [], ◌∷◌, if-cases,
}
use p2p_file_sync.Bytes.{All, All-append, All-map, bytes_equal, bytes_equal_refl}
use p2p_file_sync.Merkle.{Node, info, at, is_dir, same_type}
use p2p_file_sync.Merkle.Diff.{
  DiffResult, has_chunk, find_differing_chunks, file_chunks, collected, modified, diff,
}
use p2p_file_sync.Merkle.Diff.Covered.{Expected, changed_chunks}
use p2p_file_sync.Merkle.Diff.Collected.{UniqueTree, Sound}
use p2p_file_sync.Merkle.Diff.Complete.{root_path}
use p2p_file_sync.Merkle.Diff.Sound.{diff-Sound}
use p2p_file_sync.Net.Sync.{wanted_for, chunks_to_fetch}

-- A chunk of a remote node where the local tree has none; or one that the local node at a path lists,
-- and the remote node there does not.
abbrev pub Wanted : Option Node → Option Node → List ℕ → Type 0
Wanted l r h =
    (names : List (List ℕ)) × (((m : Node) × (at l names ≡ none)
        × (at r names ≡ some m)
        × (has_chunk h (info m).chunks ≡ true))
      ⊎ ((n : Node) × (m : Node) × (at l names ≡ some n)
          × (at r names ≡ some m)
          × (has_chunk h (info n).chunks ≡ true)
          × (has_chunk h (info m).chunks ≡ false)))

or_true : (b : Bool) → (b || true) ≡ true
or_true true = refl
or_true false = refl

has_chunk-All : (cs : List (List ℕ)) → All (λ h. has_chunk h cs ≡ true) cs
unfolding has_chunk
has_chunk-All [] = tt
has_chunk-All (c ∷ cs) = (
  ap (λ (b : Bool). b || has_chunk c cs) (bytes_equal_refl c),
  All-map (λ h. has_chunk h cs ≡ true) (λ h. has_chunk h (c ∷ cs) ≡ true)
      (λ h e. ap (λ (b : Bool). bytes_equal c h || b) e ∙ or_true (bytes_equal c h)) cs
      (has_chunk-All cs),
)

find_differing_chunks-All :
    (ls rs : List (List ℕ))
    → All (λ h. (has_chunk h ls ≡ true) × (has_chunk h rs ≡ false)) (find_differing_chunks ls rs)
unfolding find_differing_chunks has_chunk
find_differing_chunks-All [] rs = tt
find_differing_chunks-All (c ∷ cs) rs =
    let P = λ (h : List ℕ). (has_chunk h (c ∷ cs) ≡ true) × (has_chunk h rs ≡ false) in
    let rest =
      All-map (λ h. (has_chunk h cs ≡ true) × (has_chunk h rs ≡ false)) P
        (λ h e. (ap (λ (b : Bool). bytes_equal c h || b) e.0 ∙ or_true (bytes_equal c h), e.1))
        (find_differing_chunks cs rs) (find_differing_chunks-All cs rs) in
    if-cases (λ (t : List (List ℕ)). All P t) (has_chunk c rs) _ _ (λ e. rest)
      (λ e. ((ap (λ (b : Bool). b || has_chunk c cs) (bytes_equal_refl c), e), rest))

file_chunks-All : (m : Node) → All (λ h. has_chunk h (info m).chunks ≡ true) (file_chunks m)
unfolding file_chunks
file_chunks-All m =
    if-cases (λ (t : List (List ℕ)). All (λ h. has_chunk h (info m).chunks ≡ true) t)
      (is_dir (info m).kind) _ _ (λ e. tt) (λ e. has_chunk-All (info m).chunks)

changed_chunks-All :
    (n m : Node)
    → All
        (λ h. (has_chunk h (info n).chunks ≡ true) × (has_chunk h (info m).chunks ≡ false))
        (changed_chunks n m)
changed_chunks-All n m =
    if-cases
      (λ (t : List (List ℕ)).
        All (λ h. (has_chunk h (info n).chunks ≡ true) × (has_chunk h (info m).chunks ≡ false)) t)
      (same_type (info n).kind (info m).kind) _ _
      (λ e. find_differing_chunks-All (info n).chunks (info m).chunks) (λ e. tt)

Expected-Wanted :
    (l r o p : Option Node) (names : List (List ℕ)) (path : List ℕ) (d : DiffResult)
    → at l names ≡ o
    → at r names ≡ p
    → Expected o p path d
    → All (Wanted l r) (wanted_for d.diff_type d.differing)
Expected-Wanted l r none none names path d e f x = absurd x
Expected-Wanted l r none (some m) names path d e f x =
    subst (λ (t : DiffResult). All (Wanted l r) (wanted_for t.diff_type t.differing)) (sym x)
      (unfold wanted_for collected in
        All-map (λ h. has_chunk h (info m).chunks ≡ true) (Wanted l r)
          (λ h k. (names, inl (m, e, f, k))) (file_chunks m) (file_chunks-All m))
Expected-Wanted l r (some n) none names path d e f x =
    subst (λ (t : DiffResult). All (Wanted l r) (wanted_for t.diff_type t.differing)) (sym x)
      (unfold wanted_for collected in tt)
Expected-Wanted l r (some n) (some m) names path d e f x =
    subst (λ (t : DiffResult). All (Wanted l r) (wanted_for t.diff_type t.differing)) (sym x)
      (unfold wanted_for modified in
        All-map (λ h. (has_chunk h (info n).chunks ≡ true) × (has_chunk h (info m).chunks ≡ false))
          (Wanted l r) (λ h k. (names, inr (n, m, e, f, k.0, k.1))) (changed_chunks n m)
          (changed_chunks-All n m))

results-Wanted :
    (l r : Option Node) (path : List ℕ) (ds : List DiffResult)
    → All (Sound l r path) ds
    → All (Wanted l r) (chunks_to_fetch ds)
unfolding chunks_to_fetch
results-Wanted l r path [] h = tt
results-Wanted l r path (d ∷ ds) h =
    All-append (Wanted l r) (wanted_for d.diff_type d.differing) (chunks_to_fetch ds)
      (Expected-Wanted l r (at l h.0.names) (at r h.0.names) h.0.names _ d refl refl h.0.expected)
      (results-Wanted l r path ds h.1)

-- Every chunk that SyncWithPeer asks for, after the comparison of two trees in which no two children of
-- a node have the same name, is one of a remote node where the local tree has no node, or a chunk that
-- the local node at some path lists and the remote node there does not.
pub chunks_to_fetch-diff :
    (l r : Option Node)
    → UniqueTree l
    → UniqueTree r
    → All (Wanted l r) (chunks_to_fetch (diff l r))
chunks_to_fetch-diff l r u v = results-Wanted l r (root_path l r) (diff l r) (diff-Sound l r u v)
