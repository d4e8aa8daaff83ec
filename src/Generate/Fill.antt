-- ===== src/Generate/Fill.antt =====
-- The two loops that fill the window of the delta generator.
use p2p_file_sync.Prelude.{
  ℕ, zero, suc, ◌+◌, ◌≡◌, ◌<◌, refl, ap, subst, sym, ◌∙◌, ◌⊎◌, inl, inr, true, false, ltb,
  if◌then◌else◌, Bool, Bool-cases, Option, List, [], ◌∷◌, ◌++◌, append-nil, append_assoc, arith,
  length, take, ok,
}
use p2p_file_sync.Stream.{Stream, of_list}
use p2p_file_sync.Rolling.{roll_in, window}
use p2p_file_sync.Rolling.Laws.{contents, length-contents, IsValid, roll_in_lem}
use p2p_file_sync.Rolling.Full.{take-window}
use p2p_file_sync.Generate.{Generator, end_file, fill_initial, fill_next, emit_literal}
use p2p_file_sync.Generate.Progress.{nil_of_length, Written, IsDone, emit_literal-Written}

-- The generator with the rest of the file in its reader.
abbrev pub at : Generator → List ℕ → Generator
at g rest = record g { reader = of_list rest }

pub at-eq : (g : Generator) (rest : List ℕ) → g.reader ≡ of_list rest → at g rest ≡ g
at-eq g rest h = ap (λ (t : Stream). record g { reader = t }) (sym h)

module _ (old_blocks : ℕ → Option (List ℕ)) (new : List ℕ) (bs : ℕ) where
  -- The window holds `n` bytes, the reader the rest of the file, and no literals are pending.
  pub record Filling (g : Generator) (n : ℕ) (rest : List ℕ) : Type 0 where
    pub reading : g.reader ≡ of_list rest
    pub valid : IsValid g.rh
    pub sized : g.rh.block_size ≡ bs
    pub filled : g.rh.count ≡ n
    pub no_literal : g.literal ≡ []
    pub running : g.eof_reached ≡ false
    pub emitted : Written old_blocks new g (contents g.rh ++ rest)

  -- The file ended with `n` bytes in the window.
  pub record Short (g : Generator) (n : ℕ) : Type 0 where
    pub valid : IsValid g.rh
    pub filled : g.rh.count ≡ n
    pub no_literal : g.literal ≡ []
    pub ended : g.eof_reached ≡ true
    pub emitted : Written old_blocks new g (contents g.rh)

  -- The window is full, and `taken` bytes have been read for it.
  abbrev pub Full : Generator → List ℕ → ℕ → Type 0
  Full g rest taken = (rest' : List ℕ) × Filling g bs rest' × (length rest' + taken ≡ length rest)

  abbrev fed : Generator → ℕ → List ℕ → Generator
  fed g b rest = record g { reader = of_list rest; rh = (roll_in g.rh b).0 }

  fed-Filling :
      (g : Generator) (n b : ℕ) (rest : List ℕ)
      → n < bs
      → Filling g n (b ∷ rest)
      → Filling (fed g b rest) (n + 1) rest
  fed-Filling g n b rest h f =
      let (valid, bytes, count, size, _) =
        roll_in_lem b f.valid (omega (arith, f.filled, f.sized)) in
      record {
        reading = refl;
        valid = valid;
        sized = size ∙ f.sized;
        filled = count ∙ ap (λ (t : ℕ). t + 1) f.filled;
        no_literal = f.no_literal;
        running = f.running;
        emitted =
            subst (Written old_blocks new g)
              (sym
                (ap (λ (t : List ℕ). t ++ rest) bytes ∙ append_assoc (contents g.rh) (b ∷ []) rest))
              f.emitted;
      }

  end-Short : (g : Generator) (n : ℕ) → Filling g n [] → Short (end_file g) n
  end-Short g n f = record {
    valid = f.valid;
    filled = f.filled;
    no_literal = f.no_literal;
    ended = refl;
    emitted = subst (Written old_blocks new g) (append-nil (contents g.rh)) f.emitted;
  }

  fill_next-at :
      (left n : ℕ) (g : Generator) (rest : List ℕ)
      → left + n ≡ bs
      → Filling (at g rest) n rest
      → (g' : Generator) × (n' : ℕ) × (fill_next left n (at g rest) ≡ ok (g', n'))
        × (Full g' rest left ⊎ Short g' n')
  unfolding fill_next
  fill_next-at zero n g rest h f = (
    at g rest,
    n,
    refl,
    inl (rest, subst (λ (t : ℕ). Filling (at g rest) t rest) (omega arith) f, omega arith),
  )
  fill_next-at (suc left) n g [] h f = (end_file (at g []), n, refl, inr (end-Short (at g []) n f))
  fill_next-at (suc left) n g (b ∷ rest) h f =
      let (g', n', e, r) =
        fill_next-at left (n + 1) (record g { rh = (roll_in g.rh b).0 }) rest (omega arith)
          (fed-Filling (at g (b ∷ rest)) n b rest (omega arith) f) in
      (
        g',
        n',
        e,
        elim r [
          | inl (rest', full, taken) ↦ inl (rest', full, omega arith)
          | inr short ↦ inr short
        ],
      )

  -- The loop behind a match fills the window, or ends the file with the bytes that it read.
  pub fill_next_lem :
      (left n : ℕ) (g : Generator) (rest : List ℕ)
      → left + n ≡ bs
      → Filling g n rest
      → (g' : Generator) × (n' : ℕ) × (fill_next left n g ≡ ok (g', n'))
        × (Full g' rest left ⊎ Short g' n')
  fill_next_lem left n g rest h f =
      subst
        (λ (t : Generator).
          (g' : Generator) × (n' : ℕ) × (fill_next left n t ≡ ok (g', n'))
          × (Full g' rest left ⊎ Short g' n'))
        (at-eq g rest f.reading)
        (fill_next-at left n g rest h
          (subst (λ (t : Generator). Filling t n rest) (sym (at-eq g rest f.reading)) f))

  initial_end-IsDone :
      (g : Generator) (n : ℕ)
      → Filling g n []
      → IsDone old_blocks new
          (end_file (if ltb 0 n then emit_literal g (take n (window g.rh)) else g))
  initial_end-IsDone g n f =
      let emitted : Written old_blocks new g (contents g.rh) = (end-Short g n f).emitted in
      elim (Bool-cases (ltb 0 n)) [
        | inl e ↦
            subst
              (λ (t : Bool).
                IsDone old_blocks new
                  (end_file (if t then emit_literal g (take n (window g.rh)) else g)))
              (sym e)
              (record {
                ended = refl;
                emitted = emit_literal-Written old_blocks new g (take n (window g.rh)) [] (
                    subst (Written old_blocks new g)
                      (sym (
                        append-nil (take n (window g.rh))
                        ∙ ap (λ (t : ℕ). take t (window g.rh)) (sym f.filled)
                        ∙ take-window f.valid))
                      emitted);
              })
        | inr e ↦
            subst
              (λ (t : Bool).
                IsDone old_blocks new
                  (end_file (if t then emit_literal g (take n (window g.rh)) else g)))
              (sym e)
              (record {
                ended = refl;
                emitted =
                    subst (Written old_blocks new g)
                      (nil_of_length (contents g.rh)
                        (length-contents g.rh ∙ f.filled ∙ ground arith))
                      emitted;
              })
      ]

  fill_initial-at :
      (left n : ℕ) (g : Generator) (rest : List ℕ)
      → left + n ≡ bs
      → Filling (at g rest) n rest
      → (g' : Generator) × (fill_initial left n (at g rest) ≡ ok g')
        × (Full g' rest left ⊎ IsDone old_blocks new g')
  unfolding fill_initial
  fill_initial-at zero n g rest h f = (
    at g rest,
    refl,
    inl (rest, subst (λ (t : ℕ). Filling (at g rest) t rest) (omega arith) f, omega arith),
  )
  fill_initial-at (suc left) n g [] h f = (
    end_file (if ltb 0 n then emit_literal (at g []) (take n (window g.rh)) else at g []),
    refl,
    inr (initial_end-IsDone (at g []) n f),
  )
  fill_initial-at (suc left) n g (b ∷ rest) h f =
      let (g', e, r) =
        fill_initial-at left (n + 1) (record g { rh = (roll_in g.rh b).0 }) rest (omega arith)
          (fed-Filling (at g (b ∷ rest)) n b rest (omega arith) f) in
      (
        g',
        e,
        elim r [ inl (rest', full, taken) ↦ inl (rest', full, omega arith) | inr done ↦ inr done ],
      )

  -- The first loop fills the window, or ends the file with all of its bytes emitted as literals.
  pub fill_initial_lem :
      (left n : ℕ) (g : Generator) (rest : List ℕ)
      → left + n ≡ bs
      → Filling g n rest
      → (g' : Generator) × (fill_initial left n g ≡ ok g')
        × (Full g' rest left ⊎ IsDone old_blocks new g')
  fill_initial_lem left n g rest h f =
      subst
        (λ (t : Generator).
          (g' : Generator) × (fill_initial left n t ≡ ok g')
          × (Full g' rest left ⊎ IsDone old_blocks new g'))
        (at-eq g rest f.reading)
        (fill_initial-at left n g rest h
          (subst (λ (t : Generator). Filling t n rest) (sym (at-eq g rest f.reading)) f))
