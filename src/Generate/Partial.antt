-- ===== src/Generate/Partial.antt =====
-- What the delta generator does once its window matches a block.
use p2p_file_sync.Prelude.{
  ℕ, ◌≡◌, ◌<◌, refl, ap, subst, sym, ◌∙◌, ◌⊎◌, inl, inr, true, false, ltb, if◌then◌else◌, Bool,
  Bool-cases, ◌&&◌, Option, none, some, List, [], ◌++◌, append-nil, arith, length, take, ok,
}
use p2p_file_sync.Stream.{of_list}
use p2p_file_sync.Rolling.{RollingHash, reset, window}
use p2p_file_sync.Rolling.Circular.{ring}
use p2p_file_sync.Rolling.Laws.{contents, length-contents, IsValid}
use p2p_file_sync.Rolling.Slide.{empty_hash, reset-eq, empty_hash-IsValid}
use p2p_file_sync.Rolling.Full.{take-window, window_full}
use p2p_file_sync.Signature.{BlockSignature, Signature, compute_block_signature}
use p2p_file_sync.Generate.{
  Generator, emit_partial, flush_literal, emit_copy, emit_literal, match_block, match_partial,
  finish_partial, on_match,
}
use p2p_file_sync.Generate.Progress.{
  nil_of_length, Written, IsDone, flush_literal-Written, emit_copy-Written, emit_literal-Written,
}
use p2p_file_sync.Generate.Fill.{Filling, Short, fill_next_lem}
use p2p_file_sync.Generate.Match.{Describes, match_block_sound}

flush-same :
    (g : Generator)
    → ((flush_literal g).rh ≡ g.rh)
      × ((flush_literal g).reader ≡ g.reader)
      × ((flush_literal g).eof_reached ≡ g.eof_reached)
unfolding flush_literal
flush-same g = elim (Bool-cases (ltb 0 (length g.literal))) [
  | inl e ↦ rw e (refl, refl, refl)
  | inr e ↦ rw e (refl, refl, refl)
]

and-true : {a b : Bool} → a ≡ true → b ≡ true → (a && b) ≡ true
and-true h k = rw (h, k)

and-false : (a : Bool) {b : Bool} → b ≡ false → (a && b) ≡ false
and-false true k = k
and-false false k = refl

module _ (old_blocks : ℕ → Option (List ℕ)) (new : List ℕ) where
  emit_partial-IsDone :
      (g : Generator) (partial : List ℕ) (o : Option BlockSignature)
      → ((b : BlockSignature) → o ≡ some b → old_blocks b.index ≡ some partial)
      → g.literal ≡ []
      → g.eof_reached ≡ true
      → Written old_blocks new g (partial ++ [])
      → IsDone old_blocks new (emit_partial g partial (length partial) o)
  unfolding emit_partial
  emit_partial-IsDone g partial none has e ended w = record {
    ended = unfold emit_literal in ended;
    emitted = emit_literal-Written old_blocks new g partial [] w;
  }
  emit_partial-IsDone g partial (some b) has e ended w = record {
    ended = unfold emit_copy in ended;
    emitted =
        emit_copy-Written old_blocks new g b partial [] (length partial) e (has b refl) refl w;
  }

module _ (sha256 : List ℕ → List ℕ) (old_blocks : ℕ → Option (List ℕ)) (new : List ℕ)
    (sig : Signature) (describes : Describes sha256 old_blocks new sig) where
  -- Behind a match the literals are empty, so a partial block may be copied or become literal.
  match_partial-IsDone :
      (g : Generator) (n : ℕ)
      → Short old_blocks new sig.block_size g n
      → IsDone old_blocks new (match_partial sha256 sig g n)
  unfolding match_partial
  match_partial-IsDone g n s =
      let partial : List ℕ = take n (window g.rh) in
      let whole : partial ≡ contents g.rh =
        ap (λ (t : ℕ). take t (window g.rh)) (sym s.filled) ∙ take-window s.valid in
      let emitted : Written old_blocks new g (partial ++ []) =
        subst (Written old_blocks new g) (sym (append-nil partial ∙ whole)) s.emitted in
      let weak : ℕ = (compute_block_signature sha256 partial).0 in
      let found = match_block sha256 sig weak partial in
      subst (λ (t : ℕ). IsDone old_blocks new (emit_partial g partial t found))
        (ap length whole ∙ length-contents g.rh ∙ s.filled)
        (emit_partial-IsDone old_blocks new g partial found
          (λ b e.
            match_block_sound sha256 old_blocks new sig describes weak g.hashed partial [] b
              emitted.split e)
          s.no_literal s.ended emitted)

  -- A file that ends behind a match is emitted to its end.
  finish_partial-IsDone :
      (g : Generator) (n : ℕ)
      → Short old_blocks new sig.block_size g n
      → IsDone old_blocks new (finish_partial sha256 sig (g, n))
  unfolding finish_partial
  finish_partial-IsDone g n s = elim (Bool-cases (ltb 0 n)) [
    | inl e ↦
        subst (λ (t : Bool). IsDone old_blocks new (if t then match_partial sha256 sig g n else g))
          (sym (and-true s.ended e)) (match_partial-IsDone g n s)
    | inr e ↦
        subst (λ (t : Bool). IsDone old_blocks new (if t then match_partial sha256 sig g n else g))
          (sym (and-false g.eof_reached e))
          (record {
            ended = s.ended;
            emitted =
                subst (Written old_blocks new g)
                  (nil_of_length (contents g.rh) (length-contents g.rh ∙ s.filled ∙ ground arith))
                  s.emitted;
          })
  ]

  finish_partial-running :
      (g : Generator) (n : ℕ) → g.eof_reached ≡ false → finish_partial sha256 sig (g, n) ≡ g
  unfolding finish_partial
  finish_partial-running g n e =
      ap (λ (t : Bool). if t && ltb 0 n then match_partial sha256 sig g n else g) e

  -- The window holds a block, and the reader the rest of the file.
  pub record Running (g : Generator) (rest : List ℕ) : Type 0 where
    pub reading : g.reader ≡ of_list rest
    pub valid : IsValid g.rh
    pub sized : g.rh.block_size ≡ sig.block_size
    pub filled : g.rh.count ≡ sig.block_size
    pub running : g.eof_reached ≡ false
    pub emitted : Written old_blocks new g (contents g.rh ++ rest)

  pub Filling-Running :
      {g : Generator} {rest : List ℕ}
      → Filling old_blocks new sig.block_size g sig.block_size rest
      → Running g rest
  Filling-Running f = record {
    reading = f.reading;
    valid = f.valid;
    sized = f.sized;
    filled = f.filled;
    running = f.running;
    emitted = f.emitted;
  }

  -- The generator behind a match, its window reset.
  abbrev matched : Generator → BlockSignature → Generator
  matched g b =
      let copied = emit_copy (flush_literal g) b (window g.rh) sig.block_size in
      record copied { rh = reset copied.rh sig.block_size }

  matched-Filling :
      (g : Generator) (b : BlockSignature) (rest : List ℕ)
      → 0 < sig.block_size
      → Running g rest
      → old_blocks b.index ≡ some (window g.rh)
      → Filling old_blocks new sig.block_size (matched g b) 0 rest
  unfolding emit_copy ring
  matched-Filling g b rest h r has =
      let (same_rh, same_reader, same_eof) = flush-same g in
      let full : window g.rh ≡ contents g.rh = window_full r.valid (r.filled ∙ sym r.sized) in
      let (w, empty) =
        flush_literal-Written old_blocks new g (window g.rh ++ rest)
          (subst (λ (t : List ℕ). Written old_blocks new g (t ++ rest)) (sym full) r.emitted) in
      let size : sig.block_size ≡ length (window g.rh) =
        sym (ap length full ∙ length-contents g.rh ∙ r.filled) in
      let e : (matched g b).rh ≡ empty_hash sig.block_size =
        reset-eq (flush_literal g).rh sig.block_size (
          ap (λ (t : RollingHash). length t.window) same_rh
          ∙ sym (r.valid.full_size)
          ∙ sym r.valid.one_size
          ∙ r.sized) in
      record {
        reading = same_reader ∙ r.reading;
        valid = subst IsValid (sym e) (empty_hash-IsValid sig.block_size h);
        sized = ap (λ (t : RollingHash). t.block_size) e;
        filled = ap (λ (t : RollingHash). t.count) e;
        no_literal = empty;
        running = same_eof ∙ r.running;
        emitted =
            subst (Written old_blocks new (matched g b))
              (sym (ap (λ (t : RollingHash). contents t ++ rest) e))
              (emit_copy-Written old_blocks new (flush_literal g) b (window g.rh) rest
                sig.block_size empty has size w);
      }

  -- A matching window is emitted as a copy. The window is filled again from the file, or the file
  -- ends and all of it has been emitted.
  pub on_match_lem :
      (g : Generator) (b : BlockSignature) (rest : List ℕ)
      → 0 < sig.block_size
      → Running g rest
      → old_blocks b.index ≡ some (window g.rh)
      → (g' : Generator) × (on_match sha256 sig g b (window g.rh) ≡ ok g')
        × (((rest' : List ℕ) × Running g' rest' × (length rest' < length rest))
            ⊎ IsDone old_blocks new g')
  unfolding on_match
  on_match_lem g b rest h r has =
      let (g', n, e, out) =
        fill_next_lem old_blocks new sig.block_size sig.block_size 0 (matched g b) rest
          (omega arith) (matched-Filling g b rest h r has) in
      (
        finish_partial sha256 sig (g', n),
        rw e refl,
        elim out [
          | inl (rest', full, taken) ↦ inl (
            rest',
            subst (λ (t : Generator). Running t rest')
                (sym (finish_partial-running g' n full.running)) (Filling-Running full),
            omega arith,
          )
          | inr short ↦ inr (finish_partial-IsDone g' n short)
        ],
      )
