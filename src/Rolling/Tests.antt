-- ===== src/Rolling/Tests.antt =====
-- Runs of the rolling hash, and its theorem at concrete bytes.
use mathlib.Core.List.{foldl}
use p2p_file_sync.Prelude.{◌≡◌, refl, [], ◌∷◌}
use p2p_file_sync.Rolling.{
  RollingHash, adler, pack, reset, clamp_block_size, new_rolling_hash, recompute, roll_in, roll,
  sum, window, is_full,
}
use p2p_file_sync.Rolling.Slide.{slide, sum-slide}

abbrev pooled : RollingHash
pooled = record {
  a = 7;
  b = 7;
  window = 8 ∷ 8 ∷ 8 ∷ [];
  size = 3;
  pos = 1;
  count = 2;
  block_size = 2;
}

-- Five bytes through a window of three, which wraps twice.
fed : RollingHash
unfolding new_rolling_hash reset clamp_block_size roll_in roll recompute is_full
fed = foldl slide (new_rolling_hash pooled 3) (1 ∷ 2 ∷ 3 ∷ 4 ∷ 5 ∷ [])

fed_window : window fed ≡ 3 ∷ 4 ∷ 5 ∷ []
unfolding fed window
fed_window = refl

sum-slide_example :
    sum (foldl slide (new_rolling_hash pooled 3) (1 ∷ 2 ∷ 3 ∷ 4 ∷ 5 ∷ []))
    ≡ pack (adler (1, 0) (3 ∷ 4 ∷ 5 ∷ []))
unfolding clamp_block_size
sum-slide_example = sum-slide pooled 3 (1 ∷ 2 ∷ 3 ∷ 4 ∷ 5 ∷ [])
