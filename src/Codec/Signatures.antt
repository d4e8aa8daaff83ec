-- ===== src/Codec/Signatures.antt =====
-- DecodeSignature reads back what Signature.Encode writes, and rebuilds the weak index.
use p2p_file_sync.Prelude.{
  ℕ, suc, ◌≡◌, ◌≤◌, ◌<◌, ◌^◌, refl, ap, ap₂, subst, sym, ◌∙◌, true, false, Bool, List, [], ◌∷◌,
  ◌++◌, arith, append-nil, append_assoc, ltb, leb, length, length-append, take, drop, take-append,
  drop-append,
}
use p2p_file_sync.Bytes.{All, put_u32, get_uint, get_uint-put_u32, get_uint-put_u64}
use p2p_file_sync.Signature.{BlockSignature, Signature, add_block, find_by_weak_hash}
use p2p_file_sync.Signature.Index.{IsIndexed, add_block-IsIndexed}
use p2p_file_sync.Codec.{
  encode_block, encode_blocks, encode_signature, decoded, capacity_ok, decode_blocks,
  decode_entries, decode_signature,
}

-- An entry whose fields have their widths.
pub record FitsEntry (b : BlockSignature) : Type 0 where
  pub index_fits : b.index < 2 ^ 32
  pub weak_fits : b.weak_hash < 2 ^ 32
  pub strong_fits : length b.strong_hash ≡ 32

pub leb-true : (a b : ℕ) → a ≤ b → leb a b ≡ true
leb-true a b h = ground arith

ltb-false : (a b : ℕ) → b ≤ a → ltb a b ≡ false
ltb-false a b h = ground arith

abbrev added : Signature → BlockSignature → Signature
added s b = add_block s b.index b.weak_hash b.strong_hash

-- One entry is read back, whatever follows it.
decode_blocks-step :
    (left : ℕ) (b : BlockSignature) (rest : List ℕ) (s : Signature)
    → FitsEntry b
    → decode_blocks (suc left) (encode_block b ++ rest) s ≡ decode_blocks left rest (added s b)
unfolding decode_blocks encode_block
decode_blocks-step left b rest s f =
    let tail : List ℕ = b.strong_hash ++ rest in
    let split : (put_u32 b.index ++ (put_u32 b.weak_hash ++ b.strong_hash)) ++ rest
        ≡ put_u32 b.index ++ (put_u32 b.weak_hash ++ tail) =
      refl in
    rw
      (leb-true 40 (length (encode_block b ++ rest))
        (omega (arith, length-append b.strong_hash rest, f.strong_fits)))
      (ap₂ (λ (i w : ℕ). decode_blocks left (drop 32 tail) (add_block s i w (take 32 tail)))
          (get_uint-put_u32 b.index f.index_fits) (get_uint-put_u32 b.weak_hash f.weak_fits)
        ∙ ap₂ (λ (r h : List ℕ). decode_blocks left r (add_block s b.index b.weak_hash h))
            (drop-append 32 b.strong_hash rest f.strong_fits)
            (take-append 32 b.strong_hash rest f.strong_fits))

-- What reading the entries adds to a signature.
record Rebuilt (s : Signature) (bs : List BlockSignature) (out : Signature) : Type 0 where
  all_blocks : out.blocks ≡ s.blocks ++ bs
  same_size : out.block_size ≡ s.block_size
  same_file : out.file_size ≡ s.file_size
  indexed : IsIndexed out

added-fields :
    (s : Signature) (b : BlockSignature)
    → ((added s b).blocks ≡ s.blocks ++ (b ∷ []))
      × ((added s b).block_size ≡ s.block_size)
      × ((added s b).file_size ≡ s.file_size)
unfolding add_block
added-fields s b = (refl, refl, refl)

decode_blocks-Rebuilt :
    (bs : List BlockSignature) (s : Signature)
    → All FitsEntry bs
    → IsIndexed s
    → Rebuilt s bs (decode_blocks (length bs) (encode_blocks bs) s)
unfolding encode_blocks
decode_blocks-Rebuilt [] s f x =
    unfold decode_blocks in
    record {
      all_blocks = sym (append-nil s.blocks);
      same_size = refl;
      same_file = refl;
      indexed = x;
    }
decode_blocks-Rebuilt (b ∷ bs) s (f, fs) x =
    let (blocks, size, file) = added-fields s b in
    let all =
      decode_blocks-Rebuilt bs (added s b) fs
        (add_block-IsIndexed s b.index b.weak_hash b.strong_hash x) in
    subst (Rebuilt s (b ∷ bs)) (sym (decode_blocks-step (length bs) b (encode_blocks bs) s f))
      (record {
        all_blocks =
            all.all_blocks
            ∙ ap (λ (t : List BlockSignature). t ++ bs) blocks
            ∙ append_assoc s.blocks (b ∷ []) bs;
        same_size = all.same_size ∙ size;
        same_file = all.same_file ∙ file;
        indexed = all.indexed;
      })

decode_entries-room :
    (allocates : ℕ → Bool) (block_size file_size num_blocks : ℕ) (rest : List ℕ)
    → capacity_ok allocates block_size file_size ≡ true
    → decode_entries allocates block_size file_size num_blocks rest
      ≡ decoded (
          decode_blocks num_blocks rest (record {
            block_size = block_size;
            file_size = file_size;
            blocks = [];
            weak_index = [];
          }))
unfolding decode_entries
decode_entries-room allocates block_size file_size num_blocks rest room = rw room refl

-- DecodeSignature gives back the sizes and the entries that Signature.Encode wrote, in order, with
-- an exact weak index, where the fields have their widths and `make` can serve the capacity that
-- the sizes ask for.
pub decode_signature-encode_signature :
    (allocates : ℕ → Bool) (s : Signature)
    → s.block_size < 2 ^ 32
    → s.file_size < 2 ^ 64
    → length s.blocks < 2 ^ 32
    → All FitsEntry s.blocks
    → capacity_ok allocates s.block_size s.file_size ≡ true
    → (out : Signature) × (decode_signature allocates (encode_signature s) ≡ decoded out)
      × (out.blocks ≡ s.blocks)
      × (out.block_size ≡ s.block_size)
      × (out.file_size ≡ s.file_size)
      × IsIndexed out
unfolding decode_signature encode_signature
decode_signature-encode_signature allocates s size file count fit room =
    let start : Signature = record {
      block_size = s.block_size;
      file_size = s.file_size;
      blocks = [];
      weak_index = [];
    } in
    let all = decode_blocks-Rebuilt s.blocks start fit (unfold find_by_weak_hash in λ w. refl) in
    let fields : decode_signature allocates (encode_signature s)
        ≡ decoded (decode_blocks (length s.blocks) (encode_blocks s.blocks) start) =
      rw (ltb-false (length (encode_signature s)) 16 (omega arith)) (
        ap₂
          (λ (b f : ℕ).
            decode_entries allocates b f (get_uint (put_u32 (length s.blocks)))
              (encode_blocks s.blocks))
          (get_uint-put_u32 s.block_size size) (get_uint-put_u64 s.file_size file)
        ∙ ap
            (λ (n : ℕ).
              decode_entries allocates s.block_size s.file_size n (encode_blocks s.blocks))
            (get_uint-put_u32 (length s.blocks) count)
        ∙ decode_entries-room allocates s.block_size s.file_size (length s.blocks)
            (encode_blocks s.blocks) room) in
    (
      decode_blocks (length s.blocks) (encode_blocks s.blocks) start,
      fields,
      all.all_blocks,
      all.same_size,
      all.same_file,
      all.indexed,
    )
