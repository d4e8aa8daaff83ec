-- ===== src/Generate/Loop.antt =====
-- The main loop of the delta generator: every round keeps the new file split into what has been
-- emitted, the window and the rest, and the loop ends.
use p2p_file_sync.Prelude.{
  ℕ, zero, suc, ◌+◌, ◌≡◌, ◌<◌, refl, ap, subst, sym, ◌∙◌, ◌⊎◌, inl, inr, true, false, Bool,
  Option-cases, Option, none, some, List, [], ◌∷◌, ◌++◌, append_assoc, arith, length, drop, get_or,
  if◌then◌else◌, Outcome, ok, ◌>>=◌,
}
use p2p_file_sync.Rolling.{window, is_full, start_pos, roll, roll_in, sum}
use p2p_file_sync.Rolling.Laws.{contents, IsValid, roll_lem}
use p2p_file_sync.Rolling.Full.{window_full, is_full-true, oldest}
use p2p_file_sync.Signature.{BlockSignature, Signature}
use p2p_file_sync.Generate.{
  Generator, GenerateError, end_file, emit_literal, match_block, match_window, read_next, advance,
  step, main_loop,
}
use p2p_file_sync.Generate.Progress.{Written, IsDone, emit_literal-Written}
use p2p_file_sync.Generate.Fill.{at, at-eq}
use p2p_file_sync.Generate.Match.{Describes, match_block_sound}
use p2p_file_sync.Generate.Partial.{Running, on_match_lem}

module _ (sha256 : List ℕ → List ℕ) (old_blocks : ℕ → Option (List ℕ)) (new : List ℕ)
    (sig : Signature) (describes : Describes sha256 old_blocks new sig) where
  abbrev Runs : Generator → List ℕ → Type 0
  Runs = Running sha256 old_blocks new sig describes

  -- A generator one round on: it has read something, or it is done.
  abbrev Onward : Generator → List ℕ → Type 0
  Onward g rest =
      ((rest' : List ℕ) × Runs g rest' × (length rest' < length rest)) ⊎ IsDone old_blocks new g

  -- The window has given up its oldest byte, and waits for the next one.
  record Waiting (g : Generator) (rest : List ℕ) : Type 0 where
    valid : IsValid g.rh
    sized : g.rh.block_size ≡ sig.block_size
    filled : g.rh.count ≡ sig.block_size
    running : g.eof_reached ≡ false
    emitted : Written old_blocks new g (drop 1 (contents g.rh) ++ rest)

  Waiting-full : {g : Generator} {rest : List ℕ} → Waiting g rest → is_full g.rh ≡ true
  Waiting-full {g} w = is_full-true g.rh (w.filled ∙ sym w.sized)

  read_next-at :
      (g : Generator) (rest : List ℕ)
      → Waiting (at g rest) rest
      → (g' : Generator) × (read_next (at g rest) ≡ ok g') × Onward g' rest
  unfolding read_next
  read_next-at g [] w = (
    _,
    refl,
    inr (
        subst
          (λ (t : Bool).
            IsDone old_blocks new
              (end_file (if t then emit_literal (at g []) (drop 1 (window g.rh)) else at g [])))
          (sym (Waiting-full w))
          (record {
            ended = refl;
            emitted = emit_literal-Written old_blocks new (at g []) (drop 1 (window g.rh)) [] (
                subst (λ (t : List ℕ). Written old_blocks new g (drop 1 t ++ []))
                  (sym (window_full w.valid (w.filled ∙ sym w.sized))) w.emitted);
          })),
  )
  read_next-at g (b ∷ rest) w =
      let (valid, bytes, count, size) = roll_lem b w.valid (w.filled ∙ sym w.sized) in
      (
        _,
        refl,
        inl (
          rest,
          subst
              (λ (t : Bool).
                Runs (record (at g rest) { rh = if t then roll g.rh b else (roll_in g.rh b).0 })
                  rest)
              (sym (Waiting-full w))
              (record {
                reading = refl;
                valid = valid;
                sized = size ∙ w.sized;
                filled = count ∙ w.filled;
                running = w.running;
                emitted =
                    subst (Written old_blocks new g)
                      (sym (
                        ap (λ (t : List ℕ). t ++ rest) bytes
                        ∙ append_assoc (drop 1 (contents g.rh)) (b ∷ []) rest))
                      w.emitted;
              }),
          omega arith,
        ),
      )

  -- Without a match the oldest byte becomes literal data, and the window moves on by one byte or
  -- the file ends.
  advance_lem :
      (g : Generator) (rest : List ℕ)
      → 0 < sig.block_size
      → Runs g rest
      → (g' : Generator) × (advance g ≡ ok g') × Onward g' rest
  unfolding advance
  advance_lem g rest h r =
      let byte : List ℕ = get_or g.rh.window (start_pos g.rh) 0 ∷ [] in
      let emitted : Generator = emit_literal g byte in
      let waiting : Waiting emitted rest =
        (unfold emit_literal in
          record {
            valid = r.valid;
            sized = r.sized;
            filled = r.filled;
            running = r.running;
            emitted = emit_literal-Written old_blocks new g byte (drop 1 (contents g.rh) ++ rest) (
                subst (λ (t : List ℕ). Written old_blocks new g (t ++ rest))
                  (oldest r.valid (omega (arith, r.filled))) r.emitted);
          }) in
      subst
        (λ (t : Bool).
          (g' : Generator) × (read_next (if t then emitted else g) ≡ ok g') × Onward g' rest)
        (sym (is_full-true g.rh (r.filled ∙ sym r.sized)))
        (subst (λ (t : Generator). (g' : Generator) × (read_next t ≡ ok g') × Onward g' rest)
          (at-eq emitted rest (unfold emit_literal in r.reading))
          (read_next-at emitted rest (
            subst (λ (t : Generator). Waiting t rest)
              (sym (at-eq emitted rest (unfold emit_literal in r.reading))) waiting)))

  match_window_sound :
      (g : Generator) (b : BlockSignature) (rest : List ℕ)
      → Runs g rest
      → match_window sha256 sig g ≡ some b
      → old_blocks b.index ≡ some (window g.rh)
  unfolding match_window
  match_window_sound g b rest r found =
      let full : g.rh.count ≡ g.rh.block_size = r.filled ∙ sym r.sized in
      match_block_sound sha256 old_blocks new sig describes (sum g.rh) g.hashed (window g.rh) rest b
        (subst (λ (t : List ℕ). g.hashed ++ (t ++ rest) ≡ new) (sym (window_full r.valid full))
          r.emitted.split)
        (subst
          (λ (t : Bool).
            (if t then match_block sha256 sig (sum g.rh) (window g.rh) else none) ≡ some b)
          (is_full-true g.rh full) found)

  -- One round of the main loop.
  step_lem :
      (g : Generator) (rest : List ℕ)
      → 0 < sig.block_size
      → Runs g rest
      → (g' : Generator) × (step sha256 sig g ≡ ok g') × Onward g' rest
  unfolding step
  step_lem g rest h r = elim (Option-cases (match_window sha256 sig g)) [
    | inl none_found ↦ rw none_found (advance_lem g rest h r)
    | inr (b, found) ↦ rw found (
        on_match_lem sha256 old_blocks new sig describes g b rest h r
          (match_window_sound g b rest r found))
  ]

  main_loop_done :
      (fuel : ℕ) (g : Generator)
      → IsDone old_blocks new g
      → main_loop sha256 sig (suc fuel) g ≡ ok g
  unfolding main_loop
  main_loop_done fuel g d =
      ap (λ (t : Bool). if t then ok g else (step sha256 sig g >>= main_loop sha256 sig fuel))
        d.ended

  main_loop-step :
      (fuel : ℕ) (g g' : Generator)
      → g.eof_reached ≡ false
      → step sha256 sig g ≡ ok g'
      → main_loop sha256 sig (suc fuel) g ≡ main_loop sha256 sig fuel g'
  unfolding main_loop
  main_loop-step fuel g g' running e =
      ap (λ (t : Bool). if t then ok g else (step sha256 sig g >>= main_loop sha256 sig fuel))
        running
      ∙ ap (λ (t : Outcome GenerateError Generator). t >>= main_loop sha256 sig fuel) e

  pub main_loop_ended :
      (fuel : ℕ) (g : Generator)
      → 0 < fuel
      → IsDone old_blocks new g
      → main_loop sha256 sig fuel g ≡ ok g
  main_loop_ended zero g h d = absurd (omega arith)
  main_loop_ended (suc fuel) g h d = main_loop_done fuel g d

  -- Enough fuel for a round for each byte and two more ends the loop with everything emitted.
  pub main_loop_lem :
      (fuel : ℕ) (g : Generator) (rest : List ℕ)
      → 0 < sig.block_size
      → length rest + 1 < fuel
      → Runs g rest
      → (g' : Generator) × (main_loop sha256 sig fuel g ≡ ok g') × IsDone old_blocks new g'
  main_loop_lem zero g rest h enough r = absurd (omega arith)
  main_loop_lem (suc zero) g rest h enough r = absurd (omega arith)
  main_loop_lem (suc (suc fuel)) g rest h enough r =
      let (g', e, out) = step_lem g rest h r in
      elim out [
        | inr done ↦
            (g', main_loop-step (suc fuel) g g' r.running e ∙ main_loop_done fuel g' done, done)
        | inl (rest', r', shorter) ↦
            let (g'', e', done) = main_loop_lem (suc fuel) g' rest' h (omega arith) r' in
            (g'', main_loop-step (suc fuel) g g' r.running e ∙ e', done)
      ]
