-- ===== src/Signature/Index.antt =====
-- The weak index of a signature is exact: a look-up gives the places of all the blocks with that
-- weak hash, in order, and no others.
use p2p_file_sync.Prelude.{
  ℕ, suc, ◌+◌, ◌≡◌, refl, ap, sym, ◌∙◌, List, [], ◌∷◌, ◌++◌, ◌==◌, if◌then◌else◌, arith, length,
}
use p2p_file_sync.Signature.{
  BlockSignature, Signature, lookup_index, append_index, add_block, find_by_weak_hash,
}

-- The places in `blocks`, counted from `i`, of the blocks with weak hash `w`.
abbrev pub positions : ℕ → ℕ → List BlockSignature → List ℕ
positions w i [] = []
positions w i (b ∷ bs) =
    let rest = positions w (suc i) bs in if b.weak_hash == w then i ∷ rest else rest

abbrev pub IsIndexed : Signature → Type 0
IsIndexed s = (w : ℕ) → find_by_weak_hash s w ≡ positions w 0 s.blocks

lookup-append_index :
    (k j idx : ℕ) (m : List (ℕ × List ℕ))
    → lookup_index j (append_index k idx m)
      ≡ (if k == j then lookup_index j m ++ (idx ∷ []) else lookup_index j m)
unfolding lookup_index append_index
lookup-append_index k j idx [] = refl
lookup-append_index k j idx ((i, v) ∷ m) = ground (arith, lookup-append_index k j idx m)

positions-append :
    (w i : ℕ) (bs : List BlockSignature) (b : BlockSignature)
    → positions w i (bs ++ (b ∷ []))
      ≡ (if b.weak_hash == w then positions w i bs ++ ((i + length bs) ∷ []) else positions w i bs)
positions-append w i [] b = ground arith
positions-append w i (c ∷ bs) b = ground (arith, positions-append w (suc i) bs b)

-- AddBlock keeps the weak index exact.
pub add_block-IsIndexed :
    (s : Signature) (index weak : ℕ) (strong : List ℕ)
    → IsIndexed s
    → IsIndexed (add_block s index weak strong)
unfolding add_block find_by_weak_hash
add_block-IsIndexed s index weak strong h w =
    lookup-append_index weak w (length s.blocks) s.weak_index
    ∙ ap (λ (t : List ℕ). if weak == w then t ++ (length s.blocks ∷ []) else t) (h w)
    ∙ ap
        (λ (t : ℕ).
          if weak == w then positions w 0 s.blocks ++ (t ∷ []) else positions w 0 s.blocks)
        {y = 0 + length s.blocks} (omega arith)
    ∙ sym (
        positions-append w 0 s.blocks
          (record { index = index; weak_hash = weak; strong_hash = strong }))
