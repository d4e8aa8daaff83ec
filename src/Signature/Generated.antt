-- ===== src/Signature/Generated.antt =====
-- What GenerateSignature makes of a file.
use mathlib.Core.List.{foldl, flatten}
use native.Mathlib.Decide.{dec_le}
use p2p_file_sync.Prelude.{
  ℕ, zero, suc, ◌+◌, ◌%◌, ◌^◌, ◌<◌, ◌≡◌, refl, ap, subst, sym, ◌∙◌, List, [], ◌∷◌, ◌++◌, lt→ltb,
  arith, length, take, drop, length-drop, length-append, append-nil, append_assoc, take_all,
  Outcome, ok,
}
use p2p_file_sync.Bytes.{All}
use p2p_file_sync.Stream.{
  ReadError, of_list, read_more_lem, read_end, read_end-complete, read_end-short, complete,
  end_of_file, unexpected_eof, stream_length, stream_length-of_list,
}
use p2p_file_sync.Pieces.{pieces, pieces_cons, pieces_last, flatten-pieces, IsBlock, pieces-IsBlock}
use p2p_file_sync.Rolling.{adler, pack}
use p2p_file_sync.Signature.Index.{IsIndexed, add_block-IsIndexed}
use p2p_file_sync.Signature.{
  BlockSignature, Signature, add_block, find_by_weak_hash, SignatureError, sign_read,
  compute_block_signature, sign_block, sign_loop, generate_signature, block_size_or_default,
}

pub block_size_or_default-pos : (n : ℕ) → 0 < block_size_or_default n
unfolding block_size_or_default
block_size_or_default-pos n = ground arith

pub block_size_or_default-same : (n : ℕ) → 0 < n → block_size_or_default n ≡ n
unfolding block_size_or_default
block_size_or_default-same n h = ground arith

module _ (sha256 : List ℕ → List ℕ) where
  -- The signature of one block.
  abbrev pub entry : ℕ → List ℕ → BlockSignature
  entry i p = record { index = i; weak_hash = pack (adler (1, 0) p); strong_hash = sha256 p }

  -- The signatures of consecutive blocks, the first of them with index `i`.
  abbrev pub entries : ℕ → List (List ℕ) → List BlockSignature
  entries i [] = []
  entries i (p ∷ ps) = entry i p ∷ entries ((i + 1) % 2 ^ 32) ps

  abbrev sign_all : Signature × ℕ → List (List ℕ) → Signature × ℕ
  sign_all = foldl (sign_block sha256)

  -- One round of the loop, by how many bytes there are.
  sign_loop-step :
      (fuel n : ℕ) (state : Signature × ℕ) (bs : List ℕ) (e : ReadError)
      → read_end n 0 (length bs) ≡ e
      → sign_loop sha256 (suc fuel) n state (of_list bs)
        ≡ sign_read sha256
            (sign_loop sha256 fuel n)
            state
            (record { bytes = take n bs; error = e; rest = of_list (drop n bs) })
  unfolding sign_loop
  sign_loop-step fuel n state bs e h = ap (sign_read sha256 (sign_loop sha256 fuel n) state) (
      read_more_lem n 0 bs
      ∙ ap (λ (t : ReadError). record { bytes = take n bs; error = t; rest = of_list (drop n bs) })
          h)

  sign_empty :
      (n : ℕ) (state : Signature × ℕ)
      → ◌≡◌ {A = Outcome SignatureError Signature}
          (ok (sign_block sha256 state []).0)
          (ok (sign_all state (pieces n [])).0)
  unfolding sign_block pieces
  sign_empty n (sig, i) = refl

  sign_loop-pieces :
      (fuel n : ℕ) (state : Signature × ℕ) (bs : List ℕ)
      → 0 < n
      → length bs < fuel
      → sign_loop sha256 fuel n state (of_list bs) ≡ ok (sign_all state (pieces n bs)).0
  unfolding sign_read
  sign_loop-pieces zero n state bs h hf = absurd (omega arith)
  sign_loop-pieces (suc fuel) zero state bs h hf = absurd (omega arith)
  sign_loop-pieces (suc fuel) (suc n) state [] h hf =
      sign_loop-step fuel (suc n) state [] end_of_file refl ∙ sign_empty (suc n) state
  sign_loop-pieces (suc fuel) (suc n) state (b ∷ bs) h hf =
      elim (dec_le (suc n) (length (b ∷ bs))) [
        | yes p ↦
            sign_loop-step fuel (suc n) state (b ∷ bs) complete
              (read_end-complete (suc n) 0 (length (b ∷ bs)) p)
            ∙ (sign_loop-pieces fuel (suc n) (sign_block sha256 state (take (suc n) (b ∷ bs)))
                (drop (suc n) (b ∷ bs)) h (omega (arith, length-drop (suc n) (b ∷ bs))))
            ∙ ap (λ (t : List (List ℕ)). ok (sign_all state t).0) (sym (pieces_cons (suc n) b bs h))
        | no p ↦
            sign_loop-step fuel (suc n) state (b ∷ bs) unexpected_eof
              (read_end-short (suc n) 0 (length (b ∷ bs)) (omega arith) (omega arith))
            ∙ (ap (λ (t : List ℕ). ok (sign_block sha256 state t).0)
                (take_all (suc n) (b ∷ bs) (omega arith)))
            ∙ ap (λ (t : List (List ℕ)). ok (sign_all state t).0)
                (sym (pieces_last (suc n) b bs (omega arith)))
      ]

  -- The signature with one more block.
  abbrev signed : Signature → ℕ → List ℕ → Signature
  signed sig i p = record (add_block sig i (pack (adler (1, 0) p)) (sha256 p)) {
    file_size = sig.file_size + length p;
  }

  sign_block-lem :
      (sig : Signature) (i : ℕ) (p : List ℕ)
      → 0 < length p
      → sign_block sha256 (sig, i) p ≡ (signed sig i p, (i + 1) % 2 ^ 32)
  unfolding sign_block compute_block_signature add_block
  sign_block-lem sig i p h = rw (lt→ltb 0 (length p) h)

  blocks-add_block :
      (sig : Signature) (i w : ℕ) (strong : List ℕ)
      → (add_block sig i w strong).blocks
        ≡ sig.blocks ++ (record { index = i; weak_hash = w; strong_hash = strong } ∷ [])
  unfolding add_block
  blocks-add_block sig i w strong = refl

  block_size-add_block :
      (sig : Signature) (i w : ℕ) (strong : List ℕ)
      → (add_block sig i w strong).block_size ≡ sig.block_size
  unfolding add_block
  block_size-add_block sig i w strong = refl

  signed-IsIndexed :
      (sig : Signature) (i : ℕ) (p : List ℕ) → IsIndexed sig → IsIndexed (signed sig i p)
  unfolding find_by_weak_hash
  signed-IsIndexed sig i p x w = add_block-IsIndexed sig i _ _ x w

  empty-IsIndexed :
      (n : ℕ) → IsIndexed (record { block_size = n; file_size = 0; blocks = []; weak_index = [] })
  unfolding find_by_weak_hash
  empty-IsIndexed n w = refl

  -- What the blocks of a file add to a signature.
  record Signed (sig : Signature) (i : ℕ) (ps : List (List ℕ)) (out : Signature) : Type 0 where
    all_blocks : out.blocks ≡ sig.blocks ++ entries i ps
    counted : out.file_size ≡ sig.file_size + length (flatten ps)
    same_size : out.block_size ≡ sig.block_size
    indexed : IsIndexed out

  sign_all-Signed :
      (ps : List (List ℕ)) (sig : Signature) (i : ℕ) (n : ℕ)
      → All (IsBlock n) ps
      → IsIndexed sig
      → Signed sig i ps (sign_all (sig, i) ps).0
  unfolding flatten
  sign_all-Signed [] sig i n h x = record {
    all_blocks = sym (append-nil sig.blocks);
    counted = omega arith;
    same_size = refl;
    indexed = x;
  }
  sign_all-Signed (p ∷ ps) sig i n (b, h) x =
      let all =
        sign_all-Signed ps (signed sig i p) ((i + 1) % 2 ^ 32) n h (signed-IsIndexed sig i p x) in
      subst (λ (t : Signature × ℕ). Signed sig i (p ∷ ps) (sign_all t ps).0)
        (sym (sign_block-lem sig i p b.0))
        (record {
          all_blocks =
              all.all_blocks
              ∙ ap (λ (t : List BlockSignature). t ++ entries ((i + 1) % 2 ^ 32) ps)
                  (blocks-add_block sig i _ _)
              ∙ append_assoc sig.blocks (entry i p ∷ []) (entries ((i + 1) % 2 ^ 32) ps);
          counted = omega (arith, all.counted, length-append p (flatten ps));
          same_size = all.same_size ∙ block_size-add_block sig i _ _;
          indexed = all.indexed;
        })

  -- GenerateSignature, on a file that can be read to its end, returns a signature with the block
  -- size asked for, or the default one for zero, one entry for each block of the file in order, the
  -- file's length, and an exact weak index.
  pub generate_signature_lem :
      (file : List ℕ) (n : ℕ)
      → (sig : Signature) × (generate_signature sha256 (of_list file) n ≡ ok sig)
        × (sig.block_size ≡ block_size_or_default n)
        × (sig.file_size ≡ length file)
        × (sig.blocks ≡ entries 0 (pieces (block_size_or_default n) file))
        × IsIndexed sig
  unfolding generate_signature
  generate_signature_lem file n =
      let size : ℕ = block_size_or_default n in
      let some_size : 0 < size = block_size_or_default-pos n in
      let start : Signature = record {
        block_size = size;
        file_size = 0;
        blocks = [];
        weak_index = [];
      } in
      let all =
        sign_all-Signed (pieces size file) start 0 size (pieces-IsBlock size file some_size)
          (empty-IsIndexed size) in
      (
        (sign_all (start, 0) (pieces size file)).0,
        sign_loop-pieces (stream_length (of_list file) + 1) size (start, 0) file some_size
            (omega (arith, stream_length-of_list file)),
        all.same_size,
        omega (arith, all.counted, ap length (flatten-pieces size file some_size)),
        all.all_blocks,
        all.indexed,
      )
