-- ===== src/Signature.antt =====
-- internal/delta/rolling.go, Signature and SignatureBuilder, and GenerateSignature of
-- internal/delta/delta.go. SHA-256 is the parameter `sha256`, a function of all bytes written to
-- the hasher. `Index` keeps the Go width of 32 bits; the sizes are natural numbers.
pub mod Generated
pub mod Index
mod Tests
use p2p_file_sync.Prelude.{
  ℕ, zero, suc, ◌+◌, ◌%◌, ◌^◌, Option, none, some, List, [], ◌∷◌, ◌++◌, ltb, ◌==◌, if◌then◌else◌,
  length, get_elem?, Outcome, ok, err,
}
use p2p_file_sync.Stream.{
  Stream, FullRead, read_full, complete, end_of_file, unexpected_eof, failed, stream_length,
}
use p2p_file_sync.Rolling.{adler, pack, default_block_size}

pub record BlockSignature : Type 0 where
  pub index : ℕ
  pub weak_hash : ℕ
  pub strong_hash : List ℕ

-- weakIndex, the Go map, as an association list.
pub record Signature : Type 0 where
  pub block_size : ℕ
  pub file_size : ℕ
  pub blocks : List BlockSignature
  pub weak_index : List (ℕ × List ℕ)

-- A read of the map: nil for a key that it lacks.
unfoldable pub lookup_index : ℕ → List (ℕ × List ℕ) → List ℕ
lookup_index k [] = []
lookup_index k ((j, v) ∷ m) = if j == k then v else lookup_index k m

-- `m[k] = append(m[k], idx)`
unfoldable pub append_index : ℕ → ℕ → List (ℕ × List ℕ) → List (ℕ × List ℕ)
append_index k idx [] = (k, idx ∷ []) ∷ []
append_index k idx ((j, v) ∷ m) =
    if j == k then (j, v ++ (idx ∷ [])) ∷ m else (j, v) ∷ append_index k idx m

-- Signature.AddBlock
unfoldable pub add_block : Signature → ℕ → ℕ → List ℕ → Signature
add_block s index weak_hash strong_hash = record s {
  blocks =
      s.blocks ++ (record { index = index; weak_hash = weak_hash; strong_hash = strong_hash } ∷ []);
  weak_index = append_index weak_hash (length s.blocks) s.weak_index;
}

-- Signature.FindByWeakHash
unfoldable pub find_by_weak_hash : Signature → ℕ → List ℕ
unfolding lookup_index
find_by_weak_hash s weak_hash = lookup_index weak_hash s.weak_index

-- Signature.GetBlock: nil out of range.
unfoldable pub get_block : Signature → ℕ → Option BlockSignature
get_block s idx = if ltb idx (length s.blocks) then get_elem? s.blocks idx else none

pub data SignatureError : Type 0 where
  reading_block : ℕ → SignatureError
  no_fuel : SignatureError

-- `if blockSize <= 0 { blockSize = DefaultBlockSize }`
unfoldable pub block_size_or_default : ℕ → ℕ
block_size_or_default n = if n == 0 then default_block_size else n

module _ (sha256 : List ℕ → List ℕ) where
  -- SignatureBuilder.ComputeBlockSignature
  unfoldable pub compute_block_signature : List ℕ → ℕ × List ℕ
  compute_block_signature bytes = (pack (adler (1, 0) bytes), sha256 bytes)

  -- `if n > 0 { ... }` in the loop of GenerateSignature.
  unfoldable pub sign_block : Signature × ℕ → List ℕ → Signature × ℕ
  sign_block (sig, block_index) bytes =
      if ltb 0 (length bytes)
      then (
        (let (weak_hash, strong_hash) = compute_block_signature bytes in
            let added = add_block sig block_index weak_hash strong_hash in
            record added { file_size = added.file_size + length bytes }),
        (block_index + 1) % 2 ^ 32,
      )
      else (sig, block_index)

  -- The loop's body behind io.ReadFull, with the next rounds as `continue`. `file_size` is counted
  -- in the signature itself.
  unfoldable pub sign_read :
      (Signature × ℕ → Stream → Outcome SignatureError Signature)
      → Signature × ℕ
      → FullRead
      → Outcome SignatureError Signature
  sign_read continue state r =
      let state' : Signature × ℕ = sign_block state r.bytes in
      elim r.error [
        | end_of_file ↦ ok state'.0
        | unexpected_eof ↦ ok state'.0
        | failed ↦ err (reading_block state'.1)
        | complete ↦ continue state' r.rest
      ]

  -- The loop of GenerateSignature.
  unfoldable pub sign_loop : ℕ → ℕ → Signature × ℕ → Stream → Outcome SignatureError Signature
  unfolding sign_read
  sign_loop zero n state s = err no_fuel
  sign_loop (suc fuel) n state s = sign_read (sign_loop fuel n) state (read_full n s)

  -- GenerateSignature. Each round but the last takes at least one byte.
  unfoldable pub generate_signature : Stream → ℕ → Outcome SignatureError Signature
  generate_signature s n =
      let size : ℕ = block_size_or_default n in
      sign_loop (stream_length s + 1) size
        (record { block_size = size; file_size = 0; blocks = []; weak_index = [] }, 0) s
