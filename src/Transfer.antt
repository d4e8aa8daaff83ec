-- ===== src/Transfer.antt =====
-- The exchange of internal/delta from end to end: the receiver's GenerateSignature, the sender's
-- GenerateDelta, and the receiver's ApplyDelta.
mod Tests
use p2p_file_sync.Prelude.{
  ℕ, zero, suc, ◌+◌, ◌*◌, ◌%◌, ◌^◌, ◌≡◌, ◌≤◌, ◌<◌, refl, ap, subst, sym, ◌∙◌, ltb, Bool-cases, inl,
  inr, Option, none, some, some-cancel, List, [], ◌∷◌, ◌++◌, arith, length, get_elem?, Outcome, ok,
}
use p2p_file_sync.Stream.{of_list}
use p2p_file_sync.Pieces.{pieces}
use p2p_file_sync.Rolling.{RollingHash, max_block_size}
use p2p_file_sync.Signature.{BlockSignature, Signature, get_block, generate_signature}
use p2p_file_sync.Signature.Generated.{
  entry, entries, generate_signature_lem, block_size_or_default-same,
}
use p2p_file_sync.Delta.{Delta, Sink, IsWriter, Accepts, apply_delta}
use p2p_file_sync.Delta.Apply.{apply_delta-ok}
use p2p_file_sync.Generate.{generate_delta}
use p2p_file_sync.Generate.Match.{Describes}
use p2p_file_sync.Generate.Complete.{generate_delta_lem}

-- The receiver's callback gives the blocks of its old file by index.
abbrev pub ServesBlocks : (ℕ → Option (List ℕ)) → List (List ℕ) → Type 0
ServesBlocks old_blocks ps = (i : ℕ) (p : List ℕ) → get_elem? ps i ≡ some p → old_blocks i ≡ some p

-- SHA-256 tells every piece of the new file from every other block of the old one.
abbrev pub NoCollision : (List ℕ → List ℕ) → List ℕ → List (List ℕ) → Type 0
NoCollision sha256 new ps =
    (i : ℕ) (block : List ℕ)
    → get_elem? ps i ≡ some block
    → (p x q : List ℕ) → p ++ (x ++ q) ≡ new
    → sha256 x ≡ sha256 block
    → x ≡ block

module _ (sha256 : List ℕ → List ℕ) where
  entries-get :
      (i : ℕ) (ps : List (List ℕ)) (idx : ℕ) (b : BlockSignature)
      → i + length ps ≤ 2 ^ 32
      → get_elem? (entries sha256 i ps) idx ≡ some b
      → (p : List ℕ) × (get_elem? ps idx ≡ some p)
        × (b.index ≡ i + idx)
        × (b.strong_hash ≡ sha256 p)
        × (idx < length ps)
  entries-get i [] idx b h e = cc
  entries-get i (p ∷ ps) zero b h e =
      let same : entry sha256 i p ≡ b = some-cancel e in
      (
        p,
        refl,
        omega (arith, ap (λ (t : BlockSignature). t.index) same),
        sym (ap (λ (t : BlockSignature). t.strong_hash) same),
        omega arith,
      )
  entries-get i (p ∷ ps) (suc idx) b h e =
      let (q, found, index, strong, inside) =
        entries-get ((i + 1) % 2 ^ 32) ps idx b (omega arith) e in
      (q, found, omega arith, strong, omega arith)

  get_block_inv :
      (sig : Signature) (idx : ℕ) (b : BlockSignature)
      → get_block sig idx ≡ some b
      → get_elem? sig.blocks idx ≡ some b
  unfolding get_block
  get_block_inv sig idx b h = ground arith

  -- A signature with one entry for each block describes what the receiver has.
  pub generated-Describes :
      (old_blocks : ℕ → Option (List ℕ)) (new : List ℕ) (ps : List (List ℕ)) (sig : Signature)
      → length ps ≤ 2 ^ 32
      → ServesBlocks old_blocks ps
      → NoCollision sha256 new ps
      → sig.blocks ≡ entries sha256 0 ps
      → Describes sha256 old_blocks new sig
  generated-Describes old_blocks new ps sig few serves apart e idx b h =
      let (p, found, index, strong, _) =
        entries-get 0 ps idx b (omega arith)
          (ap (λ (t : List BlockSignature). get_elem? t idx) (sym e) ∙ get_block_inv sig idx b h) in
      (
        p,
        ap old_blocks {y = idx} (omega arith) ∙ serves idx p found,
        λ l x r at same. apart idx p found l x r at (same ∙ strong),
      )

-- From two files to the end of the exchange: GenerateSignature of the old file succeeds,
-- GenerateDelta of the new one against it succeeds, and ApplyDelta appends exactly the new file to
-- the writer. It is assumed that the block size lies between 1 and MaxBlockSize, that the old file
-- has at most 2 ^ 32 blocks, that the callback serves them, that the writer keeps the contract of
-- io.Writer and never fails, and that no piece of the new file has the hash of another block of the
-- old one. The pool may return any rolling hash.
pub transfer_correct :
    (sha256 : List ℕ → List ℕ) (pooled : RollingHash) (old new : List ℕ) (n : ℕ)
    (old_blocks : ℕ → Option (List ℕ)) (k : Sink) (s : k.State)
    → 0 < n
    → n ≤ max_block_size
    → length (pieces n old) ≤ 2 ^ 32
    → ServesBlocks old_blocks (pieces n old)
    → IsWriter k
    → Accepts k
    → NoCollision sha256 new (pieces n old)
    → (sig : Signature) × (d : Delta) × (t : k.State) × (generate_signature sha256 (of_list old) n
        ≡ ok sig)
      × (generate_delta sha256 sig pooled (of_list new) ≡ ok d)
      × (apply_delta sha256 old_blocks k d s ≡ ok t)
      × (k.contents t ≡ k.contents s ++ new)
transfer_correct sha256 pooled old new n old_blocks k s h max few serves writer accepts apart =
    let (sig, made, size, _, blocks, _) = generate_signature_lem sha256 old n in
    let size_n : sig.block_size ≡ n = size ∙ block_size_or_default-same n h in
    let describes : Describes sha256 old_blocks new sig =
      generated-Describes sha256 old_blocks new (pieces n old) sig few serves apart (
        blocks
        ∙ ap (λ (t : ℕ). entries sha256 0 (pieces t old)) (block_size_or_default-same n h)) in
    let (d, generated, encodes) =
      generate_delta_lem sha256 old_blocks new sig describes pooled (omega arith) (omega arith) in
    let (t, applied, written) =
      apply_delta-ok sha256 old_blocks k d s new writer accepts encodes.spelled (sym encodes.hash)
        (sym encodes.size) in
    (sig, d, t, made, generated, applied, written)
