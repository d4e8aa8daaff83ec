-- ===== src/Generate/Match.antt =====
-- A block that the delta generator finds is a block that the receiver has.
use p2p_file_sync.Prelude.{
  ℕ, ◌≡◌, ap, sym, ◌∙◌, Bool-cases, Option-cases, inl, inr, Option, some, some-cancel, List, [],
  ◌∷◌, ◌++◌,
}
use p2p_file_sync.Bytes.{bytes_equal, bytes_equal→eq}
use p2p_file_sync.Signature.{
  BlockSignature, Signature, find_by_weak_hash, get_block, compute_block_signature,
}
use p2p_file_sync.Generate.{find_block, match_block}

-- What a signature tells the sender: the receiver has the block of every entry, and no other piece
-- of the new file has the strong hash of that block.
abbrev pub Describes : (List ℕ → List ℕ) → (ℕ → Option (List ℕ)) → List ℕ → Signature → Type 0
Describes sha256 old_blocks new sig =
    (idx : ℕ) (b : BlockSignature)
    → get_block sig idx ≡ some b
    → (block : List ℕ) × (old_blocks b.index ≡ some block)
      × ((p x q : List ℕ) → p ++ (x ++ q) ≡ new → sha256 x ≡ b.strong_hash → x ≡ block)

find_block_sound :
    (sig : Signature) (strong candidates : List ℕ) (b : BlockSignature)
    → find_block sig strong candidates ≡ some b
    → (idx : ℕ) × (get_block sig idx ≡ some b) × (strong ≡ b.strong_hash)
unfolding find_block
find_block_sound sig strong [] b h = cc
find_block_sound sig strong (idx ∷ candidates) b h = elim (Option-cases (get_block sig idx)) [
  | inl missing ↦ find_block_sound sig strong candidates b (rw (missing, find_block) at h)
  | inr (c, found) ↦ elim (Bool-cases (bytes_equal strong c.strong_hash)) [
    | inl e ↦
        let same : c ≡ b = some-cancel (rw (found, e, find_block) at h) in
        (
          idx,
          found ∙ ap some same,
          bytes_equal→eq _ _ e ∙ ap (λ (t : BlockSignature). t.strong_hash) same,
        )
    | inr e ↦ find_block_sound sig strong candidates b (rw (found, e, find_block) at h)
  ]
]

module _ (sha256 : List ℕ → List ℕ) (old_blocks : ℕ → Option (List ℕ)) (new : List ℕ)
    (sig : Signature) where
  -- A match for a piece of the new file names a block that is that piece.
  pub match_block_sound :
      Describes sha256 old_blocks new sig
      → (weak : ℕ) (p x q : List ℕ) (b : BlockSignature) → p ++ (x ++ q) ≡ new
      → match_block sha256 sig weak x ≡ some b
      → old_blocks b.index ≡ some x
  unfolding match_block compute_block_signature
  match_block_sound d weak p x q b at h =
      let (idx, found, strong) = find_block_sound sig (sha256 x) (find_by_weak_hash sig weak) b h in
      let (block, has, only) = d idx b found in has ∙ ap some (sym (only p x q at strong))
