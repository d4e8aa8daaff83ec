-- ===== src/Delta/Writes.antt =====
-- What the loop of ApplyDelta writes: the file that the operations spell out.
use p2p_file_sync.Prelude.{
  ℕ, ◌+◌, ◌≡◌, refl, ap, subst, sym, ◌∙◌, Option-cases, inl, inr, Option, none, some, List, [], ◌∷◌,
  ◌++◌, append-nil, append_assoc, arith, length, length-append, ok, err, ok-injective, ok≢err,
  >>=_inv,
}
use p2p_file_sync.Delta.{
  DeltaOp, op_copy, op_data, ApplyError, writing_block, writing_literal, getting_block, Sink,
  IsWriter, Accepts, Output, multi_write, apply_op, apply_ops,
}
use p2p_file_sync.Delta.Expand.{join-eq-some, expand_op, expand}

module _ (sha256 : List ℕ → List ℕ) (old_blocks : ℕ → Option (List ℕ)) (k : Sink) where
  -- What a run that wrote `bytes` leaves.
  pub record Wrote (o : Output sha256 old_blocks k) (bytes : List ℕ)
      (o' : Output sha256 old_blocks k) : Type 0 where
    pub in_sink : k.contents o'.sink ≡ k.contents o.sink ++ bytes
    pub in_hash : o'.hashed ≡ o.hashed ++ bytes
    pub in_count : o'.written ≡ o.written + length bytes

  Wrote-nil : (o : Output sha256 old_blocks k) → Wrote o [] o
  Wrote-nil o = record {
    in_sink = sym (append-nil _);
    in_hash = sym (append-nil _);
    in_count = omega arith;
  }

  Wrote-append :
      {o o' o'' : Output sha256 old_blocks k} (a b : List ℕ)
      → Wrote o a o'
      → Wrote o' b o''
      → Wrote o (a ++ b) o''
  Wrote-append {o} a b v w = record {
    in_sink = w.in_sink ∙ ap (λ (t : List ℕ). t ++ b) v.in_sink ∙ append_assoc _ a b;
    in_hash = w.in_hash ∙ ap (λ (t : List ℕ). t ++ b) v.in_hash ∙ append_assoc _ a b;
    in_count = omega (arith, v.in_count, w.in_count, length-append a b);
  }

  multi_write-ok :
      (e : ApplyError) (o : Output sha256 old_blocks k) (bytes : List ℕ)
      → IsWriter k
      → (t : k.State) → k.write o.sink bytes ≡ some t
      → (o' : Output sha256 old_blocks k) × (multi_write sha256 old_blocks k e o bytes ≡ ok o')
        × Wrote o bytes o'
  unfolding multi_write
  multi_write-ok e o bytes w t h = (
    record { sink = t; hashed = o.hashed ++ bytes; written = o.written + length bytes },
    rw (h, multi_write) refl,
    record { in_sink = w.contents-write o.sink bytes t h; in_hash = refl; in_count = refl },
  )

  multi_write-err :
      (e : ApplyError) (o : Output sha256 old_blocks k) (bytes : List ℕ)
      → k.write o.sink bytes ≡ none
      → multi_write sha256 old_blocks k e o bytes ≡ err e
  unfolding multi_write
  multi_write-err e o bytes h = rw (h, multi_write) refl

  multi_write_inv :
      (e : ApplyError) (o : Output sha256 old_blocks k) (bytes : List ℕ)
      (o' : Output sha256 old_blocks k)
      → IsWriter k
      → multi_write sha256 old_blocks k e o bytes ≡ ok o'
      → Wrote o bytes o'
  multi_write_inv e o bytes o' w h = elim (Option-cases (k.write o.sink bytes)) [
    | inl failed ↦ absurd (ok≢err (sym h ∙ multi_write-err e o bytes failed))
    | inr (t, done) ↦
        let (o'', e', wrote) = multi_write-ok e o bytes w t done in
        subst (Wrote o bytes) (ok-injective (sym e' ∙ h)) wrote
  ]

  apply_op_inv :
      (o : Output sha256 old_blocks k) (op : DeltaOp) (o' : Output sha256 old_blocks k)
      → IsWriter k
      → apply_op sha256 old_blocks k o op ≡ ok o'
      → (b : List ℕ) × (expand_op old_blocks op ≡ some b) × Wrote o b o'
  unfolding apply_op
  apply_op_inv o (op_data bytes) o' w h = (bytes, refl, multi_write_inv _ o bytes o' w h)
  apply_op_inv o (op_copy i) o' w h = elim (Option-cases (old_blocks i)) [
    | inl missing ↦ absurd (ok≢err {e = getting_block i} (sym h ∙ rw (missing, apply_op) refl))
    | inr (b, found) ↦ (b, found, multi_write_inv _ o b o' w (rw (found, apply_op) at h))
  ]

  apply_op-ok :
      (o : Output sha256 old_blocks k) (op : DeltaOp) (b : List ℕ)
      → IsWriter k
      → Accepts k
      → expand_op old_blocks op ≡ some b
      → (o' : Output sha256 old_blocks k) × (apply_op sha256 old_blocks k o op ≡ ok o')
        × Wrote o b o'
  unfolding apply_op
  apply_op-ok o (op_copy i) b w acc h =
      let (t, e) = acc o.sink b in
      let (o', f, v) = multi_write-ok writing_block o b w t e in (o', rw (h, apply_op) f, v)
  apply_op-ok o (op_data bytes) b w acc h =
      let (t, e) = acc o.sink bytes in
      let (o', f, v) = multi_write-ok writing_literal o bytes w t e in
      (o', f, subst (λ (x : List ℕ). Wrote o x o') (cc) v)

  pub apply_ops-ok :
      (ops : List DeltaOp) (o : Output sha256 old_blocks k) (b : List ℕ)
      → IsWriter k
      → Accepts k
      → expand old_blocks ops ≡ some b
      → (o' : Output sha256 old_blocks k) × (apply_ops sha256 old_blocks k o ops ≡ ok o')
        × Wrote o b o'
  unfolding apply_ops expand
  apply_ops-ok [] o b w acc h = (o, refl, subst (λ (x : List ℕ). Wrote o x o) (cc) (Wrote-nil o))
  apply_ops-ok (op ∷ ops) o b w acc h =
      let (x, y, e, f, g) = join-eq-some (expand_op old_blocks op) (expand old_blocks ops) b h in
      let (o', e', v) = apply_op-ok o op x w acc e in
      let (o'', f', v') = apply_ops-ok ops o' y w acc f in
      (o'', rw e' f', subst (λ (x : List ℕ). Wrote o x o'') g (Wrote-append x y v v'))

  pub apply_ops_inv :
      (ops : List DeltaOp) (o o' : Output sha256 old_blocks k)
      → IsWriter k
      → apply_ops sha256 old_blocks k o ops ≡ ok o'
      → (b : List ℕ) × (expand old_blocks ops ≡ some b) × Wrote o b o'
  unfolding apply_ops expand
  apply_ops_inv [] o o' w h = ([], refl, subst (Wrote o []) (ok-injective h) (Wrote-nil o))
  apply_ops_inv (op ∷ ops) o o'' w h =
      let (o', f, e) = >>=_inv (apply_op sha256 old_blocks k o op) _ h in
      let (x, ex, v) = apply_op_inv o op o' w e in
      let (y, ey, v') = apply_ops_inv ops o' o'' w f in
      (x ++ y, rw (ex, ey) refl, Wrote-append x y v v')
