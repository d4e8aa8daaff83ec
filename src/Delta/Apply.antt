-- ===== src/Delta/Apply.antt =====
-- What ApplyDelta writes: the file that the operations spell out, or an error.
use p2p_file_sync.Prelude.{
  ℕ, ◌≡◌, refl, ap, subst, sym, ◌∙◌, true, Bool-cases, inl, inr, Option, some, List, [], ◌++◌,
  arith, ◌==◌, ==_iff, length, ok, ok-injective, ok≢err, >>=_inv,
}
use p2p_file_sync.Bytes.{bytes_equal, bytes_equal→eq, bytes_equal_refl}
use p2p_file_sync.Delta.{
  Delta, hash_mismatch, size_mismatch, Sink, IsWriter, Accepts, Output, apply_ops, check_output,
  apply_delta,
}
use p2p_file_sync.Delta.Expand.{expand}
use p2p_file_sync.Delta.Writes.{apply_ops-ok, apply_ops_inv}

module _ (sha256 : List ℕ → List ℕ) (old_blocks : ℕ → Option (List ℕ)) (k : Sink) where
  check_output-ok :
      (d : Delta) (o : Output sha256 old_blocks k)
      → sha256 o.hashed ≡ d.new_file_hash
      → o.written ≡ d.new_file_size
      → check_output sha256 old_blocks k d o ≡ ok o.sink
  unfolding check_output
  check_output-ok d o hash size =
      let e : bytes_equal (sha256 o.hashed) d.new_file_hash ≡ true =
        subst (λ (t : List ℕ). bytes_equal (sha256 o.hashed) t ≡ true) hash
          (bytes_equal_refl (sha256 o.hashed)) in
      rw (e, (==_iff o.written d.new_file_size).1 size) refl

  check_output_inv :
      (d : Delta) (o : Output sha256 old_blocks k) (t : k.State)
      → check_output sha256 old_blocks k d o ≡ ok t
      → (o.sink ≡ t) × (sha256 o.hashed ≡ d.new_file_hash) × (o.written ≡ d.new_file_size)
  unfolding check_output
  check_output_inv d o t h = elim (Bool-cases (bytes_equal (sha256 o.hashed) d.new_file_hash)) [
    | inr e ↦ absurd (ok≢err {e = hash_mismatch} (sym h ∙ rw e refl))
    | inl e ↦ elim (Bool-cases (o.written == d.new_file_size)) [
      | inr f ↦
          absurd (ok≢err {e = size_mismatch d.new_file_size o.written} (sym h ∙ rw (e, f) refl))
      | inl f ↦ (
        ok-injective (sym (rw (e, f) refl) ∙ h),
        bytes_equal→eq _ _ e,
        (==_iff o.written d.new_file_size).0 f,
      )
    ]
  ]

  abbrev begin : k.State → Output sha256 old_blocks k
  begin s = record { sink = s; hashed = []; written = 0 }

  -- ApplyDelta into a writer that never fails succeeds where the operations spell out a file with
  -- the hash and the size that the delta states, and then it has appended that file.
  pub apply_delta-ok :
      (d : Delta) (s : k.State) (file : List ℕ)
      → IsWriter k
      → Accepts k
      → expand old_blocks d.ops ≡ some file
      → sha256 file ≡ d.new_file_hash
      → length file ≡ d.new_file_size
      → (t : k.State) × (apply_delta sha256 old_blocks k d s ≡ ok t)
        × (k.contents t ≡ k.contents s ++ file)
  unfolding apply_delta
  apply_delta-ok d s file w acc h hash size =
      let (o, e, v) = apply_ops-ok sha256 old_blocks k d.ops (begin s) file w acc h in
      (
        o.sink,
        rw e (check_output-ok d o (ap sha256 v.in_hash ∙ hash) (omega (arith, v.in_count))),
        v.in_sink,
      )

  -- Where ApplyDelta returns no error, the writer has got exactly the file that the operations spell
  -- out, and that file has the hash and the size that the delta states.
  pub apply_delta_sound :
      (d : Delta) (s t : k.State)
      → IsWriter k
      → apply_delta sha256 old_blocks k d s ≡ ok t
      → (file : List ℕ) × (expand old_blocks d.ops ≡ some file)
        × (k.contents t ≡ k.contents s ++ file)
        × (sha256 file ≡ d.new_file_hash)
        × (length file ≡ d.new_file_size)
  unfolding apply_delta
  apply_delta_sound d s t w h =
      let (o, f, e) = >>=_inv (apply_ops sha256 old_blocks k (begin s) d.ops) _ h in
      let (file, ef, v) = apply_ops_inv sha256 old_blocks k d.ops (begin s) o w e in
      let (st, hash, size) = check_output_inv d o t f in
      (
        file,
        ef,
        ap k.contents (sym st) ∙ v.in_sink,
        ap sha256 (sym v.in_hash) ∙ hash,
        omega (arith, v.in_count),
      )
