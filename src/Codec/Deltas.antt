-- ===== src/Codec/Deltas.antt =====
-- DecodeDelta reads back what Delta.Encode writes.
use p2p_file_sync.Prelude.{
  ℕ, suc, ◌≡◌, ◌≤◌, ◌<◌, ◌^◌, refl, ap, ap₂, sym, ◌∙◌, false, List, [], ◌∷◌, ◌++◌, arith,
  append-nil, append_assoc, ltb, length, length-append, take, drop, take-append, drop-append,
  drop-drop, Outcome, ok, ◌>>=◌,
}
use p2p_file_sync.Bytes.{All, put_u32, get_uint, get_uint-put_u32, get_uint-put_u64}
use p2p_file_sync.Delta.{DeltaOp, op_copy, op_data, Delta}
use p2p_file_sync.Codec.{
  encode_op, encode_ops, encode_delta, DecodeError, decode_data, decode_op, decode_ops,
  decode_delta, decode_fields,
}

-- An operation whose index or length fits its field.
abbrev pub Fits : DeltaOp → Type 0
Fits (op_copy i) = i < 2 ^ 32
Fits (op_data bytes) = length bytes < 2 ^ 32

ltb-false : (a b : ℕ) → b ≤ a → ltb a b ≡ false
ltb-false a b h = ground arith

decode_op-copy :
    (i : ℕ) (rest : List ℕ)
    → i < 2 ^ 32
    → decode_op 1 (put_u32 i ++ rest) ≡ ok (op_copy i ∷ [], rest)
unfolding decode_op
decode_op-copy i rest h =
    rw (ltb-false (length (put_u32 i ++ rest)) 4 (omega arith))
      (ap (λ (t : ℕ). ok (op_copy t ∷ [], rest)) (get_uint-put_u32 i h))

decode_op-data :
    (bytes rest : List ℕ)
    → length bytes < 2 ^ 32
    → decode_op 2 (put_u32 (length bytes) ++ (bytes ++ rest)) ≡ ok (op_data bytes ∷ [], rest)
unfolding decode_op
decode_op-data bytes rest h =
    rw (ltb-false (length (put_u32 (length bytes) ++ (bytes ++ rest))) 4 (omega arith)) (
      ap (λ (t : ℕ). decode_data t (bytes ++ rest)) (get_uint-put_u32 (length bytes) h)
      ∙ rw
          (ltb-false (length (bytes ++ rest)) (length bytes)
            (omega (arith, length-append bytes rest)))
          (ap₂ (λ (t u : List ℕ). ok (op_data t ∷ [], u))
            (take-append (length bytes) bytes rest refl)
            (drop-append (length bytes) bytes rest refl)))

-- One operation is read back, whatever follows it.
decode_ops-step :
    (left : ℕ) (op : DeltaOp) (rest : List ℕ) (ops : List DeltaOp)
    → Fits op
    → decode_ops (suc left) (encode_op op ++ rest) ops ≡ decode_ops left rest (ops ++ (op ∷ []))
unfolding decode_ops encode_op
decode_ops-step left (op_copy i) rest ops h = rw (decode_op-copy i rest h) refl
decode_ops-step left (op_data bytes) rest ops h =
    ap
      (λ (t : Outcome DecodeError (List DeltaOp × List ℕ)).
        t >>= λ (found, rest'). decode_ops left rest' (ops ++ found))
      (decode_op-data bytes rest h)

decode_ops-encode_ops :
    (new ops : List DeltaOp)
    → All Fits new
    → decode_ops (length new) (encode_ops new) ops ≡ ok (ops ++ new)
unfolding encode_ops
decode_ops-encode_ops [] ops h = unfold decode_ops in ap ok (sym (append-nil ops))
decode_ops-encode_ops (op ∷ new) ops (h, hs) =
    decode_ops-step (length new) op (encode_ops new) ops h
    ∙ decode_ops-encode_ops new (ops ++ (op ∷ [])) hs
    ∙ ap ok (append_assoc ops (op ∷ []) new)

-- DecodeDelta gives back the delta that Delta.Encode wrote, but for the three counters, which are
-- not sent and come back as zero. It is assumed that the hash has 32 bytes, and that the file size,
-- the number of operations, the block indices and the lengths of the literals fit their fields.
pub decode_delta-encode_delta :
    (d : Delta)
    → length d.new_file_hash ≡ 32
    → d.new_file_size < 2 ^ 64
    → length d.ops < 2 ^ 32
    → All Fits d.ops
    → decode_delta (encode_delta d)
      ≡ ok (record d { blocks_copied = 0; bytes_copied = 0; bytes_literal = 0 })
unfolding decode_delta encode_delta
decode_delta-encode_delta d hash size count fit =
    let fields : List ℕ = put_u32 (length d.ops) ++ encode_ops d.ops in
    let rest : List ℕ = d.new_file_hash ++ fields in
    rw
      (ltb-false (length (encode_delta d)) 44 (omega (arith, length-append d.new_file_hash fields)))
      (ap₂
          (λ (s : ℕ) (h : List ℕ).
            decode_fields s h (get_uint (take 4 (drop 32 rest))) (drop 36 rest))
          (get_uint-put_u64 d.new_file_size size) (take-append 32 d.new_file_hash fields hash)
        ∙ ap₂ (λ (n : ℕ) (r : List ℕ). decode_fields d.new_file_size d.new_file_hash n r)
            (ap (λ (t : List ℕ). get_uint (take 4 t)) (drop-append 32 d.new_file_hash fields hash)
              ∙ get_uint-put_u32 (length d.ops) count)
            (sym (drop-drop 32 4 rest) ∙ ap (drop 4) (drop-append 32 d.new_file_hash fields hash))
        ∙ ap
            (λ (t : Outcome DecodeError (List DeltaOp)). t >>= λ ops.
              ok (record d { ops = ops; blocks_copied = 0; bytes_copied = 0; bytes_literal = 0 }))
            (decode_ops-encode_ops d.ops [] fit))
