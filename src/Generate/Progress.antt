-- ===== src/Generate/Progress.antt =====
-- What the delta generator has emitted, and the statements that emit.
use p2p_file_sync.Prelude.{
  ℕ, ◌+◌, ◌≡◌, refl, ap, subst, sym, ◌∙◌, true, false, Bool-cases, inl, inr, Option, some, List, [],
  ◌∷◌, ◌++◌, append-nil, append_assoc, arith, ltb, length, length-append,
}
use p2p_file_sync.Signature.{BlockSignature}
use p2p_file_sync.Delta.{op_copy, op_data, Delta}
use p2p_file_sync.Delta.Expand.{expand, expand-append}
use p2p_file_sync.Generate.{Generator, append_op, emit_literal, flush_literal, emit_copy}

-- The generator with its literals made an operation.
abbrev flushed : Generator → Generator
flushed g = record g {
  delta = record (append_op (op_data g.literal) g.delta) {
    bytes_literal = g.delta.bytes_literal + length g.literal;
  };
  literal = [];
}

flush_some : (g : Generator) → ltb 0 (length g.literal) ≡ true → flush_literal g ≡ flushed g
unfolding flush_literal
flush_some g e = rw e

flush_none : (g : Generator) → ltb 0 (length g.literal) ≡ false → flush_literal g ≡ g
unfolding flush_literal
flush_none g e = rw e

pub nil_of_length : (xs : List ℕ) → length xs ≡ 0 → xs ≡ []
nil_of_length [] h = refl
nil_of_length (x ∷ xs) h = absurd (omega arith)

module _ (old_blocks : ℕ → Option (List ℕ)) (new : List ℕ) where
  -- The operations spell out `built`, which with the pending literals has been hashed and counted,
  -- and what is left of the new file is `pending`.
  pub record Emitted (d : Delta) (literal hashed : List ℕ) (total : ℕ) (pending : List ℕ)
      : Type 0 where
    pub built : List ℕ
    pub spelled : expand old_blocks d.ops ≡ some built
    pub hashed_all : hashed ≡ built ++ literal
    pub counted : total ≡ length hashed
    pub split : hashed ++ pending ≡ new
    pub stats : d.bytes_copied + d.bytes_literal + length literal ≡ total

  abbrev pub Written : Generator → List ℕ → Type 0
  Written g pending = Emitted g.delta g.literal g.hashed g.total_bytes pending

  -- The file has ended, and everything has been emitted.
  pub record IsDone (g : Generator) : Type 0 where
    pub ended : g.eof_reached ≡ true
    pub emitted : Written g []

  pub emit_literal-Written :
      (g : Generator) (bytes pending : List ℕ)
      → Written g (bytes ++ pending)
      → Written (emit_literal g bytes) pending
  unfolding emit_literal
  emit_literal-Written g bytes pending w = record {
    built = w.built;
    spelled = w.spelled;
    hashed_all =
        ap (λ (t : List ℕ). t ++ bytes) w.hashed_all ∙ append_assoc w.built g.literal bytes;
    counted = omega (arith, w.counted, length-append g.hashed bytes);
    split = append_assoc g.hashed bytes pending ∙ w.split;
    stats = omega (arith, w.stats, length-append g.literal bytes);
  }

  pub flush_literal-Written :
      (g : Generator) (pending : List ℕ)
      → Written g pending
      → Written (flush_literal g) pending × ((flush_literal g).literal ≡ [])
  flush_literal-Written g pending w = elim (Bool-cases (ltb 0 (length g.literal))) [
    | inl e ↦
        subst (λ (t : Generator). Written t pending × (t.literal ≡ [])) (sym (flush_some g e))
          (
            record {
              built = w.built ++ g.literal;
              spelled =
                  expand-append old_blocks g.delta.ops (op_data g.literal) w.built g.literal
                    w.spelled refl;
              hashed_all = w.hashed_all ∙ sym (append-nil (w.built ++ g.literal));
              counted = w.counted;
              split = w.split;
              stats = omega (arith, w.stats);
            },
            refl,
          )
    | inr e ↦
        subst (λ (t : Generator). Written t pending × (t.literal ≡ [])) (sym (flush_none g e))
          (w, nil_of_length g.literal (ground arith))
  ]

  pub emit_copy-Written :
      (g : Generator) (block : BlockSignature) (bytes pending : List ℕ) (copied : ℕ)
      → g.literal ≡ []
      → old_blocks block.index ≡ some bytes
      → copied ≡ length bytes
      → Written g (bytes ++ pending)
      → Written (emit_copy g block bytes copied) pending
  unfolding emit_copy
  emit_copy-Written g block bytes pending copied e found size w = record {
    built = w.built ++ bytes;
    spelled =
        expand-append old_blocks g.delta.ops (op_copy block.index) w.built bytes w.spelled found;
    hashed_all =
        ap (λ (t : List ℕ). t ++ bytes)
          (w.hashed_all ∙ ap (λ (t : List ℕ). w.built ++ t) e ∙ append-nil w.built)
        ∙ sym (append-nil (w.built ++ bytes))
        ∙ ap (λ (t : List ℕ). (w.built ++ bytes) ++ t) (sym e);
    counted = omega (arith, w.counted, length-append g.hashed bytes);
    split = append_assoc g.hashed bytes pending ∙ w.split;
    stats = omega (arith, w.stats);
  }
