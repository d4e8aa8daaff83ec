-- ===== src/Generate.antt =====
-- internal/delta/delta.go, DeltaGenerator.GenerateDelta. Its local variables are the record
-- `Generator`; the reader is a stream, the hasher the list of the bytes written to it. The rolling
-- hash that the pool hands out is a parameter.
pub mod Progress
pub mod Fill
pub mod Match
pub mod Partial
pub mod Loop
pub mod Complete
use p2p_file_sync.Prelude.{
  ℕ, zero, suc, ◌+◌, ◌<◌, Bool, true, false, Option, none, some, List, [], ◌∷◌, ◌++◌, ltb, ◌&&◌,
  if◌then◌else◌, length, take, drop, get_or, Outcome, ok, err, ◌>>=◌,
}
use p2p_file_sync.Bytes.{bytes_equal}
use p2p_file_sync.Stream.{Stream, eof, fault, byte, stream_length}
use p2p_file_sync.Rolling.{
  RollingHash, start_pos, reset, new_rolling_hash, roll_in, roll, sum, window, is_full,
}
use p2p_file_sync.Signature.{
  BlockSignature, Signature, find_by_weak_hash, get_block, compute_block_signature,
}
use p2p_file_sync.Delta.{DeltaOp, op_copy, op_data, Delta}

pub record Generator : Type 0 where
  pub delta : Delta
  pub literal : List ℕ
  pub rh : RollingHash
  pub reader : Stream
  pub hashed : List ℕ
  pub total_bytes : ℕ
  pub eof_reached : Bool

pub data GenerateError : Type 0 where
  reading_initial_window reading_after_match reading_file no_fuel : GenerateError

-- The three statements that emit bytes as literal data: into literalBuf, the hasher and the count.
unfoldable pub emit_literal : Generator → List ℕ → Generator
emit_literal g bytes = record g {
  literal = g.literal ++ bytes;
  hashed = g.hashed ++ bytes;
  total_bytes = g.total_bytes + length bytes;
}

abbrev pub append_op : DeltaOp → Delta → Delta
append_op op d = record d { ops = d.ops ++ (op ∷ []) }

-- `if literalBuf.Len() > 0 { ... }`, before a match and at the end.
unfoldable pub flush_literal : Generator → Generator
flush_literal g =
    if ltb 0 (length g.literal)
    then record g {
      delta = record (append_op (op_data g.literal) g.delta) {
        bytes_literal = g.delta.bytes_literal + length g.literal;
      };
      literal = [];
    }
    else g

-- The statements that emit a block which the receiver has.
unfoldable pub emit_copy : Generator → BlockSignature → List ℕ → ℕ → Generator
emit_copy g block bytes copied = record g {
  delta = record (append_op (op_copy block.index) g.delta) {
    blocks_copied = g.delta.blocks_copied + 1;
    bytes_copied = g.delta.bytes_copied + copied;
  };
  hashed = g.hashed ++ bytes;
  total_bytes = g.total_bytes + length bytes;
}

abbrev pub end_file : Generator → Generator
end_file g = record g { eof_reached = true }

-- The loop that fills the initial window: round `i`, with `left` rounds to go.
unfoldable pub fill_initial : ℕ → ℕ → Generator → Outcome GenerateError Generator
fill_initial zero i g = ok g
fill_initial (suc left) i g = elim g.reader [
  | eof ↦ ok (end_file (if ltb 0 i then emit_literal g (take i (window g.rh)) else g))
  | fault ↦ err reading_initial_window
  | byte b r ↦ fill_initial left (i + 1) (record g { reader = r; rh = (roll_in g.rh b).0 })
]

-- The loop that fills the next window behind a match, with the bytes read so far.
unfoldable pub fill_next : ℕ → ℕ → Generator → Outcome GenerateError (Generator × ℕ)
fill_next zero partial_count g = ok (g, partial_count)
fill_next (suc left) partial_count g = elim g.reader [
  | eof ↦ ok (end_file g, partial_count)
  | fault ↦ err reading_after_match
  | byte b r ↦ fill_next left (partial_count + 1) (record g { reader = r; rh = (roll_in g.rh b).0 })
]

-- The first of the candidates whose strong hash is the one given.
unfoldable pub find_block : Signature → List ℕ → List ℕ → Option BlockSignature
find_block sig strong [] = none
find_block sig strong (idx ∷ candidates) =
    let rest = find_block sig strong candidates in
    elim (get_block sig idx) [
      | none ↦ rest
      | some block ↦ if bytes_equal strong block.strong_hash then some block else rest
    ]

-- A partial block is copied if a block was found for it, and is literal data if not.
unfoldable pub emit_partial : Generator → List ℕ → ℕ → Option BlockSignature → Generator
emit_partial g partial partial_count none = emit_literal g partial
emit_partial g partial partial_count (some block) = emit_copy g block partial partial_count

-- What the main loop does without a match, once the oldest byte is emitted: it reads the next byte and rolls.
unfoldable pub read_next : Generator → Outcome GenerateError Generator
read_next g = elim g.reader [
  | eof ↦ ok (end_file (if is_full g.rh then emit_literal g (drop 1 (window g.rh)) else g))
  | fault ↦ err reading_file
  | byte b r ↦
      ok (record g { reader = r; rh = if is_full g.rh then roll g.rh b else (roll_in g.rh b).0 })
]

unfoldable pub advance : Generator → Outcome GenerateError Generator
advance g =
    read_next
      (if is_full g.rh then emit_literal g (get_or g.rh.window (start_pos g.rh) 0 ∷ []) else g)

-- The statements behind the loop.
unfoldable pub finish : (List ℕ → List ℕ) → Generator → Delta
finish sha256 g =
    let flushed = flush_literal g in
    record flushed.delta {
      new_file_size = flushed.total_bytes;
      new_file_hash = sha256 flushed.hashed;
    }

-- The local variables of GenerateDelta before its loops.
unfoldable pub start : ℕ → RollingHash → Stream → Generator
start block_size pooled reader = record {
  delta = record {
    ops = [];
    new_file_size = 0;
    new_file_hash = [];
    blocks_copied = 0;
    bytes_copied = 0;
    bytes_literal = 0;
  };
  literal = [];
  rh = new_rolling_hash pooled block_size;
  reader = reader;
  hashed = [];
  total_bytes = 0;
  eof_reached = false;
}

module _ (sha256 : List ℕ → List ℕ) (sig : Signature) where
  -- The block of the signature with the weak and the strong hash of the bytes.
  unfoldable pub match_block : ℕ → List ℕ → Option BlockSignature
  match_block weak bytes =
      find_block sig (compute_block_signature sha256 bytes).1 (find_by_weak_hash sig weak)

  -- The check for a partial block at the end of the file, behind a match.
  unfoldable pub match_partial : Generator → ℕ → Generator
  unfolding emit_partial
  match_partial g partial_count =
      let partial = take partial_count (window g.rh) in
      emit_partial g partial partial_count
        (match_block (compute_block_signature sha256 partial).0 partial)

  -- `if eofReached && partialCount > 0 { ... }`
  unfoldable pub finish_partial : Generator × ℕ → Generator
  finish_partial (g, partial_count) =
      if g.eof_reached && ltb 0 partial_count then match_partial g partial_count else g

  -- What the main loop does once the window matches a block.
  unfoldable pub on_match : Generator → BlockSignature → List ℕ → Outcome GenerateError Generator
  on_match g block bytes =
      let copied = emit_copy (flush_literal g) block bytes sig.block_size in
      fill_next sig.block_size 0 (record copied { rh = reset copied.rh sig.block_size }) >>= λ r.
      ok (finish_partial r)

  -- The block that the full window matches.
  unfoldable pub match_window : Generator → Option BlockSignature
  match_window g = if is_full g.rh then match_block (sum g.rh) (window g.rh) else none

  -- One round of the main loop, by whether the window matches.
  unfoldable pub act : Generator → Option BlockSignature → Outcome GenerateError Generator
  act g (some block) = on_match g block (window g.rh)
  act g none = advance g

  unfoldable pub step : Generator → Outcome GenerateError Generator
  unfolding act
  step g = act g (match_window g)

  -- `for !eofReached { ... }`
  unfoldable pub main_loop : ℕ → Generator → Outcome GenerateError Generator
  main_loop zero g = err no_fuel
  main_loop (suc fuel) g =
      let rounds = step g >>= main_loop fuel in if g.eof_reached then ok g else rounds

  -- GenerateDelta. Each round of the main loop reads a byte or ends the file.
  unfoldable pub generate_delta : RollingHash → Stream → Outcome GenerateError Delta
  generate_delta pooled reader =
      fill_initial sig.block_size 0 (start sig.block_size pooled reader) >>= λ g.
      main_loop (stream_length reader + 2) g >>= λ g'. ok (finish sha256 g')
