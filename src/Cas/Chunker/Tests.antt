-- ===== src/Cas/Chunker/Tests.antt =====
-- A short file in chunks. The hash is the identity.
use mathlib.Core.List.{flatten}
use p2p_file_sync.Prelude.{ℕ, ◌≡◌, refl, List, [], ◌∷◌, map, ok}
use p2p_file_sync.Bytes.{All}
use p2p_file_sync.Stream
use p2p_file_sync.Stream.{of_list}
use p2p_file_sync.Pieces.{pieces}
use p2p_file_sync.Cas.Chunker.{
  chunk_size, Chunk, make_chunk, next_of, next, append_chunk, chunk_loop, chunk_all,
}
use p2p_file_sync.Cas.Chunker.Chunks.{IsChunk, chunk_all_lem}

abbrev identity : List ℕ → List ℕ
identity bytes = bytes

abbrev file : List ℕ
file = 1 ∷ 2 ∷ 3 ∷ []

chunk_all_run :
    chunk_all identity (of_list file) ≡ ok (record { hash = file; size = 3; content = file } ∷ [])
unfolding chunk_all chunk_loop append_chunk next next_of make_chunk chunk_size Stream.read_more
chunk_all_run = refl

chunk_all_lem_example :
    (chunks : List Chunk) × (chunk_all identity (of_list file) ≡ ok chunks)
    × (map (λ (c : Chunk). c.content) chunks ≡ pieces chunk_size file)
    × (flatten (map (λ (c : Chunk). c.content) chunks) ≡ file)
    × All (IsChunk identity) chunks
chunk_all_lem_example = chunk_all_lem identity file
