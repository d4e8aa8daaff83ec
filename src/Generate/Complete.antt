-- ===== src/Generate/Complete.antt =====
-- GenerateDelta as a whole: it returns a delta that spells out the new file.
use p2p_file_sync.Prelude.{
  ℕ, ◌+◌, ◌≡◌, ◌≤◌, ◌<◌, refl, ap, subst, sym, ◌∙◌, inl, inr, Option, some, List, [], ◌++◌,
  append-nil, arith, length, ok,
}
use p2p_file_sync.Stream.{of_list, stream_length, stream_length-of_list}
use p2p_file_sync.Rolling.{RollingHash, max_block_size}
use p2p_file_sync.Rolling.Circular.{ring}
use p2p_file_sync.Rolling.Laws.{contents, IsValid}
use p2p_file_sync.Rolling.Slide.{
  empty_hash, new_rolling_hash-eq, clamp_block_size_same, empty_hash-IsValid,
}
use p2p_file_sync.Signature.{Signature}
use p2p_file_sync.Delta.{Delta}
use p2p_file_sync.Delta.Expand.{expand}
use p2p_file_sync.Generate.{Generator, flush_literal, main_loop, finish, start, generate_delta}
use p2p_file_sync.Generate.Progress.{IsDone, flush_literal-Written}
use p2p_file_sync.Generate.Fill.{Filling, fill_initial_lem}
use p2p_file_sync.Generate.Match.{Describes}
use p2p_file_sync.Generate.Partial.{Filling-Running}
use p2p_file_sync.Generate.Loop.{main_loop_lem, main_loop_ended}

module _ (sha256 : List ℕ → List ℕ) (old_blocks : ℕ → Option (List ℕ)) (new : List ℕ) where
  -- The delta spells out the new file and states its size and hash, and its counts add up.
  pub record Encodes (d : Delta) : Type 0 where
    pub spelled : expand old_blocks d.ops ≡ some new
    pub size : d.new_file_size ≡ length new
    pub hash : d.new_file_hash ≡ sha256 new
    pub accounted : d.bytes_copied + d.bytes_literal ≡ length new

  finish-Encodes : (g : Generator) → IsDone old_blocks new g → Encodes (finish sha256 g)
  unfolding finish
  finish-Encodes g d =
      let (w, empty) = flush_literal-Written old_blocks new g [] d.emitted in
      let whole : (flush_literal g).hashed ≡ new = sym (append-nil _) ∙ w.split in
      record {
        spelled =
            w.spelled
            ∙ ap some (
                sym (append-nil w.built)
                ∙ ap (λ (t : List ℕ). w.built ++ t) (sym empty)
                ∙ sym w.hashed_all
                ∙ whole);
        size = w.counted ∙ ap length whole;
        hash = ap sha256 whole;
        accounted = omega (arith, w.stats, w.counted, ap length whole, ap length empty);
      }

module _ (old_blocks : ℕ → Option (List ℕ)) (new : List ℕ) (n : ℕ) where
  start-Filling :
      (pooled : RollingHash)
      → 0 < n
      → n ≤ max_block_size
      → Filling old_blocks new n (start n pooled (of_list new)) 0 new
  unfolding start expand ring
  start-Filling pooled h k =
      let e : (start n pooled (of_list new)).rh ≡ empty_hash n =
        new_rolling_hash-eq pooled n ∙ ap empty_hash (clamp_block_size_same n h k) in
      record {
        reading = refl;
        valid = subst IsValid (sym e) (empty_hash-IsValid n h);
        sized = ap (λ (t : RollingHash). t.block_size) e;
        filled = ap (λ (t : RollingHash). t.count) e;
        no_literal = refl;
        running = refl;
        emitted = record {
          built = [];
          spelled = refl;
          hashed_all = refl;
          counted = refl;
          split = ap (λ (t : RollingHash). contents t ++ new) e;
          stats = refl;
        };
      }

module _ (sha256 : List ℕ → List ℕ) (old_blocks : ℕ → Option (List ℕ)) (new : List ℕ)
    (sig : Signature) (describes : Describes sha256 old_blocks new sig) where
  -- For a signature of blocks of up to MaxBlockSize bytes that the receiver has, GenerateDelta
  -- returns a delta, whatever the pool returned, and the delta encodes the new file.
  pub generate_delta_lem :
      (pooled : RollingHash)
      → 0 < sig.block_size
      → sig.block_size ≤ max_block_size
      → (d : Delta) × (generate_delta sha256 sig pooled (of_list new) ≡ ok d)
        × Encodes sha256 old_blocks new d
  unfolding generate_delta
  generate_delta_lem pooled h k =
      let (g, e, out) =
        fill_initial_lem old_blocks new sig.block_size sig.block_size 0
          (start sig.block_size pooled (of_list new)) new (omega arith)
          (start-Filling old_blocks new sig.block_size pooled h k) in
      let fuel : ℕ = stream_length (of_list new) + 2 in
      let (g', e', done) : (g' : Generator) × (main_loop sha256 sig fuel g ≡ ok g')
          × IsDone old_blocks new g' =
        elim out [
          | inl (rest, full, taken) ↦
              main_loop_lem sha256 old_blocks new sig describes fuel g rest h
                (omega (arith, stream_length-of_list new))
                (Filling-Running sha256 old_blocks new sig describes full)
          | inr done ↦ (
            g,
            main_loop_ended sha256 old_blocks new sig describes fuel g (omega arith) done,
            done,
          )
        ] in
      (finish sha256 g', rw (e, e') refl, finish-Encodes sha256 old_blocks new g' done)
