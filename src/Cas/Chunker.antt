-- ===== src/Cas/Chunker.antt =====
-- internal/cas/chunk.go: the Chunker. Its state is the reader that it holds. SHA-256 is the
-- parameter `sha256`. A pooled buffer is filled before it is read, so what it held does not show.
pub mod Chunks
mod Tests
use p2p_file_sync.Prelude.{
  ℕ, zero, suc, ◌+◌, ◌*◌, ◌%◌, ◌^◌, List, [], ◌∷◌, ◌++◌, ◌==◌, if◌then◌else◌, length, Outcome, ok,
  err,
}
use p2p_file_sync.Stream.{
  Stream, FullRead, read_full, complete, end_of_file, unexpected_eof, failed, stream_length,
}

-- ChunkSize
unfoldable pub chunk_size : ℕ
chunk_size = 4 * 1024

pub record Chunk : Type 0 where
  pub hash : List ℕ
  pub size : ℕ
  pub content : List ℕ

-- What Chunker.Next returns: a chunk, io.EOF, or the reader's error.
pub data Next : Type 0 where
  no_more read_failed : Next
  next_chunk : Chunk → Stream → Next

pub data ChunkError : Type 0 where
  reading no_fuel : ChunkError

module _ (sha256 : List ℕ → List ℕ) where
  -- Chunker.Next behind its checks of the error.
  unfoldable pub make_chunk : List ℕ → Stream → Next
  make_chunk bytes rest =
      if length bytes == 0
      then no_more
      else next_chunk
          (record { hash = sha256 bytes; size = length bytes % 2 ^ 32; content = bytes }) rest

  unfoldable pub next_of : FullRead → Next
  unfolding make_chunk
  next_of r = elim r.error [
    | end_of_file ↦ no_more
    | unexpected_eof ↦ make_chunk r.bytes r.rest
    | failed ↦ read_failed
    | complete ↦ make_chunk r.bytes r.rest
  ]

  -- Chunker.Next
  unfoldable pub next : Stream → Next
  unfolding next_of
  next s = next_of (read_full chunk_size s)

  -- The body of the loop of ChunkAll, with the next rounds as `continue`.
  unfoldable pub append_chunk :
      (Stream → List Chunk → Outcome ChunkError (List Chunk))
      → List Chunk
      → Next
      → Outcome ChunkError (List Chunk)
  append_chunk continue chunks no_more = ok chunks
  append_chunk continue chunks read_failed = err reading
  append_chunk continue chunks (next_chunk c rest) = continue rest (chunks ++ (c ∷ []))

  unfoldable pub chunk_loop : ℕ → Stream → List Chunk → Outcome ChunkError (List Chunk)
  chunk_loop zero s chunks = err no_fuel
  chunk_loop (suc fuel) s chunks = append_chunk (chunk_loop fuel) chunks (next s)

  -- Chunker.ChunkAll. Each round but the last takes a byte.
  unfoldable pub chunk_all : Stream → Outcome ChunkError (List Chunk)
  chunk_all s = chunk_loop (stream_length s + 1) s []
