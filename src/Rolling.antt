-- ===== src/Rolling.antt =====
-- internal/delta/rolling.go, RollingHash: the window of the delta generator, kept in a circular
-- buffer, and its Adler-32 style sum. The `int` fields are natural numbers: the only subtraction,
-- `pos - count + size`, is not negative while `count` is at most `size`.
pub mod Circular
pub mod Laws
pub mod Slide
pub mod Full
mod Tests
use p2p_file_sync.Prelude.{
  ℕ, zero, suc, ◌+◌, ◌-◌, ◌*◌, ◌%◌, ◌^◌, Bool, true, List, [], ◌∷◌, ◌++◌, ltb, leb, ◌==◌,
  if◌then◌else◌, length, set, get_or, take, drop, replicate,
}

abbrev pub default_block_size : ℕ
default_block_size = 4 * 1024

abbrev pub max_block_size : ℕ
max_block_size = 64 * 1024

abbrev pub rolling_hash_mod : ℕ
rolling_hash_mod = 65521

pub record RollingHash : Type 0 where
  pub a : ℕ
  pub b : ℕ
  pub window : List ℕ
  pub size : ℕ
  pub pos : ℕ
  pub count : ℕ
  pub block_size : ℕ

-- One byte of the sum, in recompute and in ComputeBlockSignature.
abbrev pub adler_step : ℕ × ℕ → ℕ → ℕ × ℕ
adler_step (a, b) c = let a' : ℕ = (a + c) % rolling_hash_mod in (a', (b + a') % rolling_hash_mod)

-- The loop of ComputeBlockSignature over its data.
unfoldable pub adler : ℕ × ℕ → List ℕ → ℕ × ℕ
adler ab [] = ab
adler ab (c ∷ cs) = adler (adler_step ab c) cs

-- `(b << 16) | a` on uint32 values: `a` is below 2 ^ 16, so the bits do not meet.
abbrev pub pack : ℕ × ℕ → ℕ
pack (a, b) = (b * 2 ^ 16) % 2 ^ 32 + a

-- `(pos - count + size) % size`, the index of the oldest byte.
abbrev pub start_pos : RollingHash → ℕ
start_pos rh = (rh.pos + rh.size - rh.count) % rh.size

-- RollingHash.Reset
unfoldable pub reset : RollingHash → ℕ → RollingHash
reset rh block_size = record {
  a = 1;
  b = 0;
  window = replicate (length rh.window) 0;
  size = length rh.window;
  pos = 0;
  count = 0;
  block_size = block_size;
}

-- The two clamps of NewRollingHash.
unfoldable pub clamp_block_size : ℕ → ℕ
clamp_block_size n =
    let m = (if n == 0 then default_block_size else n) in
    if ltb max_block_size m then max_block_size else m

-- NewRollingHash. `pooled` is what the pool returns, its window at full capacity.
unfoldable pub new_rolling_hash : RollingHash → ℕ → RollingHash
new_rolling_hash pooled n =
    let size = clamp_block_size n in
    let window =
      (if ltb (length pooled.window) size then replicate size 0 else take size pooled.window) in
    reset (record pooled { window = window }) size

-- The loop of recompute, with `left` rounds to go.
unfoldable pub recompute_loop : RollingHash → ℕ → ℕ → ℕ × ℕ → ℕ × ℕ
recompute_loop rh i zero ab = ab
recompute_loop rh i (suc left) ab =
    recompute_loop rh (i + 1) left
      (adler_step ab (get_or rh.window ((start_pos rh + i) % rh.size) 0))

-- RollingHash.recompute
unfoldable pub recompute : RollingHash → RollingHash
unfolding recompute_loop
recompute rh = let (a, b) = recompute_loop rh 0 rh.count (1, 0) in record rh { a = a; b = b }

-- RollingHash.RollIn
unfoldable pub roll_in : RollingHash → ℕ → RollingHash × Bool
unfolding recompute
roll_in rh byte =
    if ltb rh.count rh.block_size
    then (
      recompute (record rh {
        window = set rh.window rh.pos byte;
        pos = (rh.pos + 1) % rh.size;
        count = rh.count + 1;
      }),
      rh.count + 1 == rh.block_size,
    )
    else (rh, true)

-- RollingHash.Roll
unfoldable pub roll : RollingHash → ℕ → RollingHash
unfolding recompute
roll rh new_byte =
    recompute (record rh { window = set rh.window rh.pos new_byte; pos = (rh.pos + 1) % rh.size })

-- RollingHash.Sum
unfoldable pub sum : RollingHash → ℕ
sum rh = pack (rh.a, rh.b)

-- `copy(result[at:], source)` into a slice of zeros of which `filled` are written.
abbrev pub pad : ℕ → List ℕ → List ℕ
pad n xs = take n (xs ++ replicate n 0)

-- RollingHash.Window: a fresh slice of `block_size` zeros, with the live bytes copied to its front.
unfoldable pub window : RollingHash → List ℕ
window rh =
    let start = start_pos rh in
    pad rh.block_size (
      if leb (start + rh.count) rh.size
      then take rh.count (drop start rh.window)
      else drop start rh.window ++ take (rh.count - (rh.size - start)) rh.window)

-- RollingHash.IsFull
unfoldable pub is_full : RollingHash → Bool
is_full rh = leb rh.block_size rh.count
