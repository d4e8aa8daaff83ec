-- ===== src/Codec.antt =====
-- The wire formats of internal/delta: Encode and DecodeDelta of delta.go, Encode and
-- DecodeSignature of rolling.go. A decoder's `data[offset:]` is the list of the bytes left. Sizes
-- are read as 64-bit patterns.
pub mod Deltas
pub mod Signatures
mod Tests
use p2p_file_sync.Prelude.{
  ℕ, zero, suc, ◌+◌, ◌-◌, ◌/◌, ◌%◌, ◌^◌, Bool, true, false, List, [], ◌∷◌, ◌++◌, ltb, leb, ◌==◌,
  if◌then◌else◌, length, take, drop, Outcome, ok, err, ◌>>=◌,
}
use p2p_file_sync.Bytes.{put_u32, put_u64, get_uint}
use p2p_file_sync.Signature.{BlockSignature, Signature, add_block}
use p2p_file_sync.Delta.{DeltaOp, op_copy, op_data, Delta}

-- OpCopy.Encode and OpData.Encode.
unfoldable pub encode_op : DeltaOp → List ℕ
encode_op (op_copy i) = 1 ∷ put_u32 i
encode_op (op_data bytes) = 2 ∷ (put_u32 (length bytes) ++ bytes)

unfoldable pub encode_ops : List DeltaOp → List ℕ
encode_ops [] = []
encode_ops (op ∷ ops) = encode_op op ++ encode_ops ops

-- Delta.Encode
unfoldable pub encode_delta : Delta → List ℕ
encode_delta d =
    put_u64 d.new_file_size ++ (d.new_file_hash ++ (put_u32 (length d.ops) ++ encode_ops d.ops))

pub data DecodeError : Type 0 where
  delta_too_short truncated_copy_op truncated_data_op_length truncated_data_op : DecodeError

-- What follows the length of literal data.
unfoldable pub decode_data : ℕ → List ℕ → Outcome DecodeError (List DeltaOp × List ℕ)
decode_data data_len body =
    if ltb (length body) data_len
    then err truncated_data_op
    else ok (op_data (take data_len body) ∷ [], drop data_len body)

-- The switch on the opcode: the operations that it yields, and the bytes behind it.
unfoldable pub decode_op : ℕ → List ℕ → Outcome DecodeError (List DeltaOp × List ℕ)
unfolding decode_data
decode_op opcode rest =
    if opcode == 1
    then if ltb (length rest) 4
      then err truncated_copy_op
      else ok (op_copy (get_uint (take 4 rest)) ∷ [], drop 4 rest)
    else if opcode == 2
    then if ltb (length rest) 4
      then err truncated_data_op_length
      else decode_data (get_uint (take 4 rest)) (drop 4 rest)
    else ok ([], rest)

-- The loop of DecodeDelta, with `left` operations to go.
unfoldable pub decode_ops : ℕ → List ℕ → List DeltaOp → Outcome DecodeError (List DeltaOp)
decode_ops zero rest ops = ok ops
decode_ops (suc left) [] ops = ok ops
decode_ops (suc left) (opcode ∷ rest) ops =
    decode_op opcode rest >>= λ (found, rest'). decode_ops left rest' (ops ++ found)

-- The delta whose header fields have been read, its operations still in `rest`.
unfoldable pub decode_fields : ℕ → List ℕ → ℕ → List ℕ → Outcome DecodeError Delta
decode_fields file_size hash num_ops rest = decode_ops num_ops rest [] >>= λ ops. ok (record {
  ops = ops;
  new_file_size = file_size;
  new_file_hash = hash;
  blocks_copied = 0;
  bytes_copied = 0;
  bytes_literal = 0;
})

-- DecodeDelta
unfoldable pub decode_delta : List ℕ → Outcome DecodeError Delta
unfolding decode_fields
decode_delta bytes =
    if ltb (length bytes) 44
    then err delta_too_short
    else decode_fields (get_uint (take 8 bytes)) (take 32 (drop 8 bytes))
        (get_uint (take 4 (drop 40 bytes))) (drop 44 bytes)

-- Signature.Encode
unfoldable pub encode_block : BlockSignature → List ℕ
encode_block b = put_u32 b.index ++ (put_u32 b.weak_hash ++ b.strong_hash)

unfoldable pub encode_blocks : List BlockSignature → List ℕ
encode_blocks [] = []
encode_blocks (b ∷ bs) = encode_block b ++ encode_blocks bs

unfoldable pub encode_signature : Signature → List ℕ
encode_signature s =
    put_u32 s.block_size
    ++ (put_u64 s.file_size ++ (put_u32 (length s.blocks) ++ encode_blocks s.blocks))

-- A call may return, with a nil signature where the input is too short, or panic.
pub data Decoded : Type 0 where
  no_signature panics : Decoded
  decoded : Signature → Decoded

-- The capacity that NewSignature asks for, `(fileSize + blockSize - 1) / blockSize` in int64. The
-- sum wraps, and a negative quotient is a panic; one that Go rounds to 0 is not.
unfoldable pub capacity_ok : (ℕ → Bool) → ℕ → ℕ → Bool
capacity_ok allocates block_size file_size =
    let total = (file_size + block_size + (2 ^ 64 - 1)) % 2 ^ 64 in
    if block_size == 0
    then false
    else if ltb total (2 ^ 63)
    then allocates (total / block_size)
    else ltb (2 ^ 64 - total) block_size

-- The loop of DecodeSignature, with `left` blocks to go.
unfoldable pub decode_blocks : ℕ → List ℕ → Signature → Signature
decode_blocks zero rest s = s
decode_blocks (suc left) rest s =
    let more = decode_blocks left (drop 40 rest) (
      add_block s (get_uint (take 4 rest)) (get_uint (take 4 (drop 4 rest)))
        (take 32 (drop 8 rest))) in
    if leb 40 (length rest) then more else s

-- DecodeSignature behind the header fields, the entries still in `rest`. `allocates` tells which
-- capacities Go's `make` can serve.
unfoldable pub decode_entries : (ℕ → Bool) → ℕ → ℕ → ℕ → List ℕ → Decoded
decode_entries allocates block_size file_size num_blocks rest =
    let new_signature : Signature = record {
      block_size = block_size;
      file_size = file_size;
      blocks = [];
      weak_index = [];
    } in
    if capacity_ok allocates block_size file_size
    then decoded (decode_blocks num_blocks rest new_signature)
    else panics

-- DecodeSignature
unfoldable pub decode_signature : (ℕ → Bool) → List ℕ → Decoded
unfolding decode_entries
decode_signature allocates bytes =
    if ltb (length bytes) 16
    then no_signature
    else decode_entries allocates (get_uint (take 4 bytes)) (get_uint (take 8 (drop 4 bytes)))
        (get_uint (take 4 (drop 12 bytes))) (drop 16 bytes)
