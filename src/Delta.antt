-- ===== src/Delta.antt =====
-- internal/delta/delta.go: the operations of a delta, and ApplyDelta. SHA-256 is the parameter
-- `sha256`; the byte counts, int64 in Go, are natural numbers.
pub mod Expand
pub mod Writes
pub mod Apply
use p2p_file_sync.Prelude.{
  ℕ, ◌+◌, ◌*◌, ◌≡◌, ◌==◌, Option, none, some, List, [], ◌∷◌, ◌++◌, if◌then◌else◌, length, Outcome,
  ok, err, ◌>>=◌,
}
use p2p_file_sync.Bytes.{bytes_equal}

-- DeltaOp: OpCopy and OpData.
pub data DeltaOp : Type 0 where
  op_copy : ℕ → DeltaOp
  op_data : List ℕ → DeltaOp

pub record Delta : Type 0 where
  pub ops : List DeltaOp
  pub new_file_size : ℕ
  pub new_file_hash : List ℕ
  pub blocks_copied : ℕ
  pub bytes_copied : ℕ
  pub bytes_literal : ℕ

pub data ApplyError : Type 0 where
  getting_block : ℕ → ApplyError
  writing_block writing_literal hash_mismatch : ApplyError
  size_mismatch : ℕ → ℕ → ApplyError

-- An io.Writer: what has been written to it is its state, and a write may fail.
pub record Sink : Type 1 where
  pub State : Type 0
  pub write : State → List ℕ → Option State
  pub contents : State → List ℕ

-- The contract of io.Writer: a write that returns no error has written all of its bytes.
pub record IsWriter (k : Sink) : Type 0 where
  pub contents-write :
      (s : k.State) (bytes : List ℕ) (t : k.State)
      → k.write s bytes ≡ some t
      → k.contents t ≡ k.contents s ++ bytes

-- A writer that never fails, such as bytes.Buffer.
abbrev pub Accepts : Sink → Type 0
Accepts k = (s : k.State) (bytes : List ℕ) → (t : k.State) × (k.write s bytes ≡ some t)

module _ (sha256 : List ℕ → List ℕ) (old_blocks : ℕ → Option (List ℕ)) (k : Sink) where
  -- The writer, the bytes that the hasher has seen, and `written`.
  pub record Output : Type 0 where
    pub sink : k.State
    pub hashed : List ℕ
    pub written : ℕ

  -- A write to both through the io.MultiWriter.
  unfoldable pub multi_write : ApplyError → Output → List ℕ → Outcome ApplyError Output
  multi_write e o bytes = elim (k.write o.sink bytes) [
    | none ↦ err e
    | some t ↦
        ok (record { sink = t; hashed = o.hashed ++ bytes; written = o.written + length bytes })
  ]

  -- One round of the loop of ApplyDelta.
  unfoldable pub apply_op : Output → DeltaOp → Outcome ApplyError Output
  apply_op o (op_copy i) = elim (old_blocks i) [
    | none ↦ err (getting_block i)
    | some block ↦ multi_write writing_block o block
  ]
  apply_op o (op_data bytes) = multi_write writing_literal o bytes

  unfoldable pub apply_ops : Output → List DeltaOp → Outcome ApplyError Output
  apply_ops o [] = ok o
  apply_ops o (op ∷ ops) = apply_op o op >>= λ o'. apply_ops o' ops

  -- The checks of ApplyDelta behind its loop.
  unfoldable pub check_output : Delta → Output → Outcome ApplyError k.State
  check_output d o =
      if bytes_equal (sha256 o.hashed) d.new_file_hash
      then if o.written == d.new_file_size
        then ok o.sink
        else err (size_mismatch d.new_file_size o.written)
      else err hash_mismatch

  -- ApplyDelta
  unfoldable pub apply_delta : Delta → k.State → Outcome ApplyError k.State
  apply_delta d s =
      apply_ops (record { sink = s; hashed = []; written = 0 }) d.ops >>= check_output d
