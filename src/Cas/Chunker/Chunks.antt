-- ===== src/Cas/Chunker/Chunks.antt =====
-- What ChunkAll makes of a file.
use mathlib.Core.List.{flatten}
use native.Mathlib.Decide.{dec_le}
use p2p_file_sync.Prelude.{
  ℕ, zero, suc, ◌+◌, ◌%◌, ◌^◌, ◌<◌, ◌≡◌, refl, ap, sym, ◌∙◌, false, List, [], ◌∷◌, ◌++◌, map, ◌==◌,
  arith, length, take, drop, length-drop, length-take, append-nil, append_assoc, ok,
}
use p2p_file_sync.Bytes.{All}
use p2p_file_sync.Stream.{
  Stream, ReadError, of_list, read_more_lem, read_end, read_end-complete, read_end-short, complete,
  end_of_file, unexpected_eof, stream_length, stream_length-of_list,
}
use p2p_file_sync.Pieces.{pieces, pieces_cons, flatten-pieces, IsBlock, pieces-IsBlock}
use p2p_file_sync.Cas.Chunker.{
  chunk_size, Chunk, next_chunk, no_more, make_chunk, next_of, next, append_chunk, chunk_loop,
  chunk_all,
}

chunk_size-pos : 0 < chunk_size
unfolding chunk_size
chunk_size-pos = omega arith

read_end-nothing : (n : ℕ) → 0 < n → read_end n 0 0 ≡ end_of_file
read_end-nothing zero h = absurd (omega arith)
read_end-nothing (suc n) h = refl

not_zero : (n : ℕ) → 0 < n → (n == 0) ≡ false
not_zero n h = ground arith

module _ (sha256 : List ℕ → List ℕ) where
  abbrev pub chunk_of : List ℕ → Chunk
  chunk_of p = record { hash = sha256 p; size = length p % 2 ^ 32; content = p }

  next-read :
      (bs : List ℕ) (e : ReadError)
      → read_end chunk_size 0 (length bs) ≡ e
      → next sha256 (of_list bs)
        ≡ next_of sha256
            (record { bytes = take chunk_size bs; error = e; rest = of_list (drop chunk_size bs) })
  unfolding next
  next-read bs e h = ap (next_of sha256) (
      read_more_lem chunk_size 0 bs
      ∙ ap
          (λ (t : ReadError). record {
            bytes = take chunk_size bs;
            error = t;
            rest = of_list (drop chunk_size bs);
          })
          h)

  make_chunk-some :
      (bytes : List ℕ) (rest : Stream)
      → 0 < length bytes
      → make_chunk sha256 bytes rest ≡ next_chunk (chunk_of bytes) rest
  unfolding make_chunk
  make_chunk-some bytes rest h = rw (not_zero (length bytes) h) refl

  next-nil : next sha256 (of_list []) ≡ no_more
  unfolding next_of
  next-nil = next-read [] end_of_file (read_end-nothing chunk_size chunk_size-pos)

  -- On a file with bytes left, Next takes the next block.
  next-cons :
      (b : ℕ) (bs : List ℕ)
      → next sha256 (of_list (b ∷ bs))
        ≡ next_chunk (chunk_of (take chunk_size (b ∷ bs))) (of_list (drop chunk_size (b ∷ bs)))
  unfolding next_of
  next-cons b bs =
      let some_bytes : 0 < length (take chunk_size (b ∷ bs)) =
        omega (arith, length-take chunk_size (b ∷ bs), chunk_size-pos) in
      elim (dec_le chunk_size (length (b ∷ bs))) [
        | yes p ↦
            next-read (b ∷ bs) complete (read_end-complete chunk_size 0 (length (b ∷ bs)) p)
            ∙ make_chunk-some (take chunk_size (b ∷ bs)) (of_list (drop chunk_size (b ∷ bs)))
                some_bytes
        | no p ↦
            next-read (b ∷ bs) unexpected_eof
              (read_end-short chunk_size 0 (length (b ∷ bs)) (omega arith) (omega arith))
            ∙ make_chunk-some (take chunk_size (b ∷ bs)) (of_list (drop chunk_size (b ∷ bs)))
                some_bytes
      ]

  chunk_loop-pieces :
      (fuel : ℕ) (bs : List ℕ) (chunks : List Chunk)
      → length bs < fuel
      → chunk_loop sha256 fuel (of_list bs) chunks
        ≡ ok (chunks ++ map chunk_of (pieces chunk_size bs))
  unfolding chunk_loop append_chunk
  chunk_loop-pieces zero bs chunks h = absurd (omega arith)
  chunk_loop-pieces (suc fuel) [] chunks h =
      ap (append_chunk sha256 (chunk_loop sha256 fuel) chunks) next-nil
      ∙ (unfold pieces in ap ok (sym (append-nil chunks)))
  chunk_loop-pieces (suc fuel) (b ∷ bs) chunks h =
      let c = chunk_of (take chunk_size (b ∷ bs)) in
      ap (append_chunk sha256 (chunk_loop sha256 fuel) chunks) (next-cons b bs)
      ∙ (chunk_loop-pieces fuel (drop chunk_size (b ∷ bs)) (chunks ++ (c ∷ []))
            (omega (arith, length-drop chunk_size (b ∷ bs), chunk_size-pos))
          ∙ ap ok (
              append_assoc chunks (c ∷ [])
                (map chunk_of (pieces chunk_size (drop chunk_size (b ∷ bs)))))
          ∙ ap (λ (t : List (List ℕ)). ok (chunks ++ map chunk_of t))
              (sym (pieces_cons chunk_size b bs chunk_size-pos)))

  -- A chunk with the hash and the size of its content, which is neither empty nor too long.
  pub record IsChunk (c : Chunk) : Type 0 where
    pub hashed : c.hash ≡ sha256 c.content
    pub sized : c.size ≡ length c.content
    pub block : IsBlock chunk_size c.content

  chunk_of-sized : (p : List ℕ) → IsBlock chunk_size p → length p % 2 ^ 32 ≡ length p
  unfolding chunk_size
  chunk_of-sized p b = omega (arith, b.1)

  chunks-IsChunk :
      (ps : List (List ℕ)) → All (IsBlock chunk_size) ps → All IsChunk (map chunk_of ps)
  chunks-IsChunk [] h = tt
  chunks-IsChunk (p ∷ ps) (b, h) =
      (record { hashed = refl; sized = chunk_of-sized p b; block = b }, chunks-IsChunk ps h)

  contents : (ps : List (List ℕ)) → map (λ (c : Chunk). c.content) (map chunk_of ps) ≡ ps
  contents [] = refl
  contents (p ∷ ps) = ap (λ (t : List (List ℕ)). p ∷ t) (contents ps)

  -- ChunkAll, on a file that can be read to its end, returns chunks whose contents are the blocks
  -- of ChunkSize bytes of the file in order, so that together they are the file, each with the hash
  -- and the size of its content.
  pub chunk_all_lem :
      (file : List ℕ)
      → (chunks : List Chunk) × (chunk_all sha256 (of_list file) ≡ ok chunks)
        × (map (λ (c : Chunk). c.content) chunks ≡ pieces chunk_size file)
        × (flatten (map (λ (c : Chunk). c.content) chunks) ≡ file)
        × All IsChunk chunks
  unfolding chunk_all
  chunk_all_lem file =
      let ps = pieces chunk_size file in
      (
        map chunk_of ps,
        chunk_loop-pieces (stream_length (of_list file) + 1) file []
            (omega (arith, stream_length-of_list file)),
        contents ps,
        ap flatten (contents ps) ∙ flatten-pieces chunk_size file chunk_size-pos,
        chunks-IsChunk ps (pieces-IsBlock chunk_size file chunk_size-pos),
      )
