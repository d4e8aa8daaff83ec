-- ===== src/Rolling/Laws.antt =====
-- The invariant of the rolling hash, and what each method does to the bytes in its window.
use native.Mathlib.Nat.{
  mod-eq_of_lt, mod-eq-sub-mod, mod-add-mod, mod-lt, add-mod_right, mod_self, mod-mod,
}
use native.Mathlib.Decide.{dec_lt}
use p2p_file_sync.Prelude.{
  ℕ, zero, suc, ◌+◌, ◌-◌, ◌%◌, ◌≤◌, ◌<◌, ◌≡◌, refl, ap, sym, ◌∙◌, List, [], ◌∷◌, ◌++◌, arith, leb,
  ◌==◌, length, set, get_or, drop, length-set, length-replicate, Bool-cases, inl, inr, lt→ltb,
}
use p2p_file_sync.Rolling.{
  RollingHash, adler_step, adler, pack, start_pos, reset, recompute_loop, recompute, roll_in, roll,
  sum, pad, window,
}
use p2p_file_sync.Rolling.Circular.{ring, length-ring, ring-set, ring-slice, ring-congr, ring-wrap}

-- The bytes in the window, oldest first.
abbrev pub contents : RollingHash → List ℕ
contents rh = ring rh.window rh.size (start_pos rh) rh.count

pub record IsShaped (rh : RollingHash) : Type 0 where
  pub full_size : rh.size ≡ length rh.window
  pub one_size : rh.block_size ≡ rh.size
  pub some_room : 0 < rh.size
  pub pos_in : rh.pos < rh.size
  pub count_in : rh.count ≤ rh.size

-- The fields agree, and the sum is that of the bytes in the window.
pub record IsValid (rh : RollingHash) : Type 0 where
  pub shaped : IsShaped rh
  pub open shaped use *
  pub summed : adler (1, 0) (contents rh) ≡ (rh.a, rh.b)

pub length-contents : (rh : RollingHash) → length (contents rh) ≡ rh.count
length-contents rh = length-ring rh.window rh.size (start_pos rh) rh.count

recompute_loop-eq-adler :
    (rh : RollingHash) (i k : ℕ) (ab : ℕ × ℕ)
    → recompute_loop rh i k ab ≡ adler ab (ring rh.window rh.size (start_pos rh + i) k)
unfolding recompute_loop adler ring
recompute_loop-eq-adler rh i zero ab = refl
recompute_loop-eq-adler rh i (suc k) ab =
    recompute_loop-eq-adler rh (i + 1) k _
    ∙ ap
        (λ (t : ℕ).
          adler (adler_step ab (get_or rh.window ((start_pos rh + i) % rh.size) 0))
            (ring rh.window rh.size t k))
        (omega arith)

contents-recompute : (rh : RollingHash) → contents (recompute rh) ≡ contents rh
unfolding recompute
contents-recompute rh = refl

-- After recompute the sum is that of the window.
recompute-IsValid : {rh : RollingHash} → IsShaped rh → IsValid (recompute rh)
unfolding recompute
recompute-IsValid {rh} v = record {
  shaped = record {
    full_size = v.full_size;
    one_size = v.one_size;
    some_room = v.some_room;
    pos_in = v.pos_in;
    count_in = v.count_in;
  };
  summed = sym (
      recompute_loop-eq-adler rh 0 rh.count (1, 0)
      ∙ ap (λ (t : ℕ). adler (1, 0) (ring rh.window rh.size t rh.count)) (omega arith));
}

-- Where the next byte goes, `count` places after the oldest.
pos-eq :
    (pos size count : ℕ)
    → pos < size
    → count ≤ size
    → pos ≡ ((pos + size - count) % size + count) % size
pos-eq pos size count hp hc = sym (
    mod-add-mod (pos + size - count) size count
    ∙ ap (λ (t : ℕ). t % size) {y = pos + size} (omega arith)
    ∙ add-mod_right pos size
    ∙ mod-eq_of_lt hp)

-- A byte rolled in or rolled over leaves the oldest byte where the new count says.
start-next :
    (pos size count : ℕ)
    → pos < size
    → count < size
    → ((pos + 1) % size + size - (count + 1)) % size ≡ (pos + size - count) % size
start-next pos size count hp hc = elim (dec_lt (pos + 1) size) [
  | yes p ↦ rw (mod-eq_of_lt p) (ap (λ (t : ℕ). t % size) {y = pos + size - count} (omega arith))
  | no p ↦
      let e : pos + 1 ≡ size = omega arith in
      rw (e, mod_self)
        (ap (λ (t : ℕ). t % size) {y = (pos + size - count) - size} (omega arith)
          ∙ sym (mod-eq-sub-mod {n = pos + size - count} {m = size} (omega arith)))
]

-- The window with a byte written at the write position, its sum not yet computed.
abbrev written : RollingHash → ℕ → ℕ → RollingHash
written rh byte count = record rh {
  window = set rh.window rh.pos byte;
  pos = (rh.pos + 1) % rh.size;
  count = count;
}

written-IsShaped :
    {rh : RollingHash} (byte count : ℕ)
    → IsShaped rh
    → count ≤ rh.size
    → IsShaped (written rh byte count)
written-IsShaped {rh} byte count v h = record {
  full_size = omega (arith, length-set rh.window rh.pos byte);
  one_size = v.one_size;
  some_room = v.some_room;
  pos_in = mod-lt (rh.pos + 1) v.some_room;
  count_in = h;
}

contents-written_room :
    {rh : RollingHash} (byte : ℕ)
    → IsShaped rh
    → rh.count < rh.size
    → contents (written rh byte (rh.count + 1)) ≡ contents rh ++ (byte ∷ [])
contents-written_room {rh} byte v h = rw (start-next rh.pos rh.size rh.count v.pos_in h) (
    ap (λ (t : ℕ). ring (set rh.window rh.pos byte) rh.size (start_pos rh) t) {y = suc rh.count}
      (omega arith)
    ∙ ring-set rh.window rh.size (start_pos rh) rh.count rh.pos byte v.full_size h
        (pos-eq rh.pos rh.size rh.count v.pos_in v.count_in))

drop-ring :
    (buf : List ℕ) (size s k : ℕ)
    → 0 < k
    → drop 1 (ring buf size s k) ≡ ring buf size (s + 1) (k - 1)
unfolding ring
drop-ring buf size s zero h = absurd (omega arith)
drop-ring buf size s (suc k) h = ap (λ (t : ℕ). ring buf size (s + 1) t) (omega arith)

contents-written_full :
    {rh : RollingHash} (byte : ℕ)
    → IsShaped rh
    → rh.count ≡ rh.size
    → contents (written rh byte rh.count) ≡ drop 1 (contents rh) ++ (byte ∷ [])
contents-written_full {rh} byte v h =
    ap (λ (t : ℕ). ring buf size start' t) {y = suc (rh.count - 1)} (omega arith)
    ∙ ring-set rh.window size start' (rh.count - 1) rh.pos byte v.full_size (omega arith) (
        sym (mod-eq_of_lt v.pos_in)
        ∙ sym (add-mod_right rh.pos size)
        ∙ ap (λ (t : ℕ). t % size) {y = (rh.pos + 1) + (rh.count - 1)} (omega arith)
        ∙ sym (mod-add-mod (rh.pos + 1) size (rh.count - 1))
        ∙ ap (λ (t : ℕ). (t + (rh.count - 1)) % size) (sym start-eq))
    ∙ ap (λ (t : List ℕ). t ++ (byte ∷ []))
        (ring-congr (rh.window) size start' (start_pos rh + 1) (rh.count - 1) (
            ap (λ (t : ℕ). t % size) start-eq
            ∙ mod-mod (rh.pos + 1) size
            ∙ ap (λ (t : ℕ). (t + 1) % size) {y = start_pos rh}
                (sym (ap (λ (t : ℕ). t % size) {y = rh.pos} (omega arith) ∙ mod-eq_of_lt v.pos_in)))
          ∙ sym (drop-ring rh.window size (start_pos rh) rh.count (omega arith)))
  where
    size : ℕ
    size = rh.size

    buf : List ℕ
    buf = set rh.window rh.pos byte

    start' : ℕ
    start' = start_pos (written rh byte rh.count)

    start-eq : start' ≡ (rh.pos + 1) % size
    start-eq =
        ap (λ (t : ℕ). t % size) {y = (rh.pos + 1) % size} (omega arith) ∙ mod-mod (rh.pos + 1) size

-- RollIn appends the byte to the window while there is room, and tells when it has filled it.
pub roll_in_lem :
    {rh : RollingHash} (byte : ℕ)
    → IsValid rh
    → rh.count < rh.block_size
    → IsValid (roll_in rh byte).0
      × (contents (roll_in rh byte).0 ≡ contents rh ++ (byte ∷ []))
      × ((roll_in rh byte).0.count ≡ rh.count + 1)
      × ((roll_in rh byte).0.block_size ≡ rh.block_size)
      × ((roll_in rh byte).1 ≡ (rh.count + 1 == rh.block_size))
roll_in_lem {rh} byte v h = rw (roll_in_room rh byte h) (
  recompute-IsValid (written-IsShaped byte (rh.count + 1) v.shaped (omega arith)),
  contents-recompute (written rh byte (rh.count + 1))
      ∙ contents-written_room byte v.shaped (omega arith),
  unfold recompute in refl,
  unfold recompute in refl,
  refl,
)
  where
    roll_in_room :
        (rh : RollingHash) (byte : ℕ)
        → rh.count < rh.block_size
        → roll_in rh byte
          ≡ (recompute (written rh byte (rh.count + 1)), rh.count + 1 == rh.block_size)
    roll_in_room rh byte h = unfold roll_in in rw (lt→ltb _ _ h)

-- Roll drops the oldest byte of a full window and appends the new one.
pub roll_lem :
    {rh : RollingHash} (byte : ℕ)
    → IsValid rh
    → rh.count ≡ rh.block_size
    → IsValid (roll rh byte)
      × (contents (roll rh byte) ≡ drop 1 (contents rh) ++ (byte ∷ []))
      × ((roll rh byte).count ≡ rh.count)
      × ((roll rh byte).block_size ≡ rh.block_size)
unfolding roll
roll_lem {rh} byte v h = (
  recompute-IsValid (written-IsShaped byte rh.count v.shaped v.count_in),
  contents-recompute (written rh byte rh.count) ∙ contents-written_full byte v.shaped (omega arith),
  refl,
  refl,
)

-- Window returns the bytes in the window, oldest first, padded with zeros to the block size.
pub window_lem : {rh : RollingHash} → IsValid rh → window rh ≡ pad rh.block_size (contents rh)
unfolding window
window_lem {rh} v =
    ap (pad rh.block_size) (elim (Bool-cases (leb (start_pos rh + rh.count) rh.size)) [
      | inl e ↦
          rw e
            (sym (ring-slice rh.window rh.size (start_pos rh) rh.count v.full_size (ground arith)))
      | inr e ↦ rw e (
          sym (
            ring-wrap rh.window rh.size (start_pos rh) rh.count v.full_size
              (omega (arith, mod-lt (rh.pos + rh.size - rh.count) v.some_room)) (ground arith)
              (omega (arith, mod-lt (rh.pos + rh.size - rh.count) v.some_room, v.count_in))))
    ])

-- Sum is the weak hash that ComputeBlockSignature gives the same bytes.
pub sum_lem : {rh : RollingHash} → IsValid rh → sum rh ≡ pack (adler (1, 0) (contents rh))
unfolding sum
sum_lem v = ap pack (sym v.summed)

pub reset-IsValid :
    (rh : RollingHash) → 0 < length rh.window → IsValid (reset rh (length rh.window))
unfolding reset ring adler
reset-IsValid rh h = record {
  shaped = record {
    full_size = sym (length-replicate (length rh.window) 0);
    one_size = refl;
    some_room = h;
    pos_in = h;
    count_in = omega arith;
  };
  summed = refl;
}
