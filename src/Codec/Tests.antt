-- ===== src/Codec/Tests.antt =====
-- Runs of the codecs, and their theorems at concrete messages.
use p2p_file_sync.Prelude.{ℕ, ◌≡◌, refl, true, List, [], ◌∷◌, ◌++◌, arith, leb, ok}
use p2p_file_sync.Signature.{Signature}
use p2p_file_sync.Signature.Index.{IsIndexed}
use p2p_file_sync.Delta.{op_copy, op_data, Delta}
use p2p_file_sync.Codec.{
  encode_op, encode_ops, encode_delta, decode_data, decode_op, decode_ops, decode_fields,
  decode_delta, encode_signature, decoded, panics, capacity_ok, decode_entries, decode_signature,
}
use p2p_file_sync.Codec.Deltas.{decode_delta-encode_delta}
use p2p_file_sync.Codec.Signatures.{decode_signature-encode_signature}

abbrev eight : List ℕ
eight = 1 ∷ 2 ∷ 3 ∷ 4 ∷ 250 ∷ 251 ∷ 252 ∷ 253 ∷ []

abbrev hash : List ℕ
hash = eight ++ eight ++ eight ++ eight

abbrev delta : Delta
delta = record {
  ops = op_data (9 ∷ 8 ∷ []) ∷ op_copy 70000 ∷ [];
  new_file_size = 6;
  new_file_hash = hash;
  blocks_copied = 0;
  bytes_copied = 0;
  bytes_literal = 0;
}

decode_delta_run : decode_delta (encode_delta delta) ≡ ok delta
unfolding encode_op encode_ops encode_delta decode_data decode_op decode_ops decode_fields
    decode_delta
decode_delta_run = refl

decode_delta-encode_delta_example : decode_delta (encode_delta delta) ≡ ok delta
decode_delta-encode_delta_example =
    decode_delta-encode_delta delta refl (omega arith) (omega arith)
      (omega arith, (omega arith, tt))

abbrev signature : Signature
signature = record {
  block_size = 4;
  file_size = 7;
  blocks =
      record { index = 0; weak_hash = 0x60004; strong_hash = hash }
      ∷ record { index = 1; weak_hash = 0xc0008; strong_hash = hash }
      ∷ [];
  weak_index = [];
}

decode_signature-encode_signature_example :
    (out : Signature) × (decode_signature (λ n. leb n 1000) (encode_signature signature)
      ≡ decoded out)
    × (out.blocks ≡ signature.blocks)
    × (out.block_size ≡ 4)
    × (out.file_size ≡ 7)
    × IsIndexed out
unfolding capacity_ok
decode_signature-encode_signature_example =
    decode_signature-encode_signature (λ n. leb n 1000) signature (omega arith) (omega arith)
      (omega arith)
      (
        record { index_fits = omega arith; weak_fits = omega arith; strong_fits = refl },
        (record { index_fits = omega arith; weak_fits = omega arith; strong_fits = refl }, tt),
      )
      refl

abbrev zeros : List ℕ
zeros = 0 ∷ 0 ∷ 0 ∷ 0 ∷ 0 ∷ 0 ∷ 0 ∷ 0 ∷ []

-- Without the block size, the division of NewSignature panics.
decode_zeros : decode_signature (λ n. true) (zeros ++ zeros) ≡ panics
unfolding decode_signature decode_entries capacity_ok
decode_zeros = refl
