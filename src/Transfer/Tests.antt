-- ===== src/Transfer/Tests.antt =====
-- Runs of the exchange, and its theorems at concrete files. The hash is the identity, which has no
-- collisions; the writer is a buffer.
use p2p_file_sync.Prelude.{
  ℕ, ◌≡◌, refl, sym, Option, some, some-cancel, List, [], ◌∷◌, ◌++◌, arith, get_elem?, length, ok,
}
use p2p_file_sync.Stream
use p2p_file_sync.Stream.{of_list}
use p2p_file_sync.Pieces.{pieces}
use p2p_file_sync.Rolling.{
  RollingHash, reset, recompute, clamp_block_size, new_rolling_hash, roll_in, roll, sum, window,
  is_full, adler,
}
use p2p_file_sync.Signature.{
  Signature, find_by_weak_hash, get_block, compute_block_signature, generate_signature, sign_block,
  sign_loop, add_block, append_index, block_size_or_default,
}
use p2p_file_sync.Delta.{
  op_copy, op_data, Delta, Sink, IsWriter, Accepts, apply_delta, apply_ops, apply_op, multi_write,
  check_output,
}
use p2p_file_sync.Delta.Apply.{apply_delta_sound}
use p2p_file_sync.Delta.Expand.{expand}
use p2p_file_sync.Bytes.{bytes_equal}
use p2p_file_sync.Generate.Match.{Describes}
use p2p_file_sync.Generate.{
  act, emit_partial, generate_delta, flush_literal, emit_literal, emit_copy, fill_initial,
  fill_next, find_block, read_next, finish, start, match_block, match_partial, finish_partial,
  on_match, advance, match_window, step, main_loop,
}
use p2p_file_sync.Generate.Complete.{Encodes, generate_delta_lem}
use p2p_file_sync.Transfer.{transfer_correct, generated-Describes}

abbrev identity : List ℕ → List ℕ
identity bytes = bytes

abbrev old_file : List ℕ
old_file = 1 ∷ 2 ∷ 3 ∷ 4 ∷ 5 ∷ []

-- An insertion before the first block, and the last, shorter block behind a match.
abbrev new_file : List ℕ
new_file = 9 ∷ 1 ∷ 2 ∷ 5 ∷ []

abbrev serve : ℕ → Option (List ℕ)
serve = get_elem? ((1 ∷ 2 ∷ []) ∷ (3 ∷ 4 ∷ []) ∷ (5 ∷ []) ∷ [])

abbrev buffer : Sink
buffer = record { State = List ℕ; write = λ s bytes. some (s ++ bytes); contents = λ s. s }

buffer-IsWriter : IsWriter buffer
buffer-IsWriter = record { contents-write = λ s bytes t e. sym (some-cancel e) }

buffer-Accepts : Accepts buffer
buffer-Accepts = λ s bytes. (s ++ bytes, refl)

abbrev pooled : RollingHash
pooled = record {
  a = 7;
  b = 7;
  window = 8 ∷ 8 ∷ 8 ∷ [];
  size = 3;
  pos = 1;
  count = 2;
  block_size = 2;
}

abbrev signature : Signature
signature = record {
  block_size = 2;
  file_size = 5;
  blocks =
      record { index = 0; weak_hash = 0x60004; strong_hash = 1 ∷ 2 ∷ [] }
      ∷ record { index = 1; weak_hash = 0xc0008; strong_hash = 3 ∷ 4 ∷ [] }
      ∷ record { index = 2; weak_hash = 0x60006; strong_hash = 5 ∷ [] }
      ∷ [];
  weak_index = (0x60004, 0 ∷ []) ∷ (0xc0008, 1 ∷ []) ∷ (0x60006, 2 ∷ []) ∷ [];
}

abbrev delta : Delta
delta = record {
  ops = op_data (9 ∷ []) ∷ op_copy 0 ∷ op_copy 2 ∷ [];
  new_file_size = 4;
  new_file_hash = new_file;
  blocks_copied = 2;
  bytes_copied = 3;
  bytes_literal = 1;
}

signature_run : generate_signature identity (of_list old_file) 2 ≡ ok signature
unfolding generate_signature sign_loop sign_block compute_block_signature add_block append_index
    adler block_size_or_default Stream.read_more
signature_run = refl

delta_run : generate_delta identity signature pooled (of_list new_file) ≡ ok delta
unfolding generate_delta start new_rolling_hash clamp_block_size reset fill_initial roll_in
    main_loop step act match_window match_block find_block find_by_weak_hash get_block
    compute_block_signature bytes_equal is_full sum adler window on_match flush_literal emit_copy
    emit_literal fill_next finish_partial match_partial emit_partial advance read_next roll
    recompute finish
delta_run = refl

apply_run : apply_delta identity serve buffer delta [] ≡ ok new_file
unfolding apply_delta apply_ops apply_op multi_write check_output bytes_equal
apply_run = refl

transfer_correct_example :
    (sig : Signature) × (d : Delta) × (t : List ℕ) × (generate_signature identity
        (of_list old_file)
        2
      ≡ ok sig)
    × (generate_delta identity sig pooled (of_list new_file) ≡ ok d)
    × (apply_delta identity serve buffer d (7 ∷ []) ≡ ok t)
    × (t ≡ 7 ∷ 9 ∷ 1 ∷ 2 ∷ 5 ∷ [])
unfolding pieces
transfer_correct_example =
    transfer_correct identity pooled old_file new_file 2 serve buffer (7 ∷ []) (omega arith)
      (omega arith) (omega arith) (λ i p e. e) buffer-IsWriter buffer-Accepts
      (λ i block h p x q at same. same)

apply_delta_sound_example :
    (file : List ℕ) × (expand serve delta.ops ≡ some file)
    × (new_file ≡ [] ++ file)
    × (identity file ≡ new_file)
    × (length file ≡ 4)
apply_delta_sound_example =
    apply_delta_sound identity serve buffer delta [] new_file buffer-IsWriter apply_run

signature-Describes : Describes identity serve new_file signature
unfolding pieces adler
signature-Describes =
    generated-Describes identity serve new_file (pieces 2 old_file) signature (omega arith)
      (λ i p e. e) (λ i block h p x q at same. same) refl

generate_delta_lem_example :
    (d : Delta) × (generate_delta identity signature pooled (of_list new_file) ≡ ok d)
    × Encodes identity serve new_file d
generate_delta_lem_example =
    generate_delta_lem identity serve new_file signature signature-Describes pooled (omega arith)
      (omega arith)
