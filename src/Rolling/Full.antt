-- ===== src/Rolling/Full.antt =====
-- Window and IsFull on a window of `count` bytes.
use native.Mathlib.Nat.{mod-mod}
use p2p_file_sync.Prelude.{
  ℕ, ◌+◌, ◌-◌, ◌%◌, ◌≤◌, ◌≡◌, refl, ap, ◌∙◌, true, List, [], ◌∷◌, ◌++◌, arith, take, drop, zero,
  suc, replicate, take-append, get_or,
}
use p2p_file_sync.Rolling.{RollingHash, start_pos, window, is_full}
use p2p_file_sync.Rolling.Circular.{ring}
use p2p_file_sync.Rolling.Laws.{contents, length-contents, IsValid, window_lem}

take-take : (m n : ℕ) (xs : List ℕ) → m ≤ n → take m (take n xs) ≡ take m xs
take-take zero n xs h = refl
take-take (suc m) zero xs h = absurd (omega arith)
take-take (suc m) (suc n) [] h = refl
take-take (suc m) (suc n) (x ∷ xs) h = ap (λ (t : List ℕ). x ∷ t) (take-take m n xs (omega arith))

-- `rh.Window()[:rh.count]` is the bytes in the window.
pub take-window : {rh : RollingHash} → IsValid rh → take rh.count (window rh) ≡ contents rh
take-window {rh} v =
    ap (take rh.count) (window_lem v)
    ∙ take-take rh.count rh.block_size (contents rh ++ replicate rh.block_size 0)
        (omega (arith, v.count_in, v.one_size))
    ∙ take-append rh.count (contents rh) (replicate rh.block_size 0) (length-contents rh)

-- Window returns exactly the bytes of a full window.
pub window_full :
    {rh : RollingHash} → IsValid rh → rh.count ≡ rh.block_size → window rh ≡ contents rh
window_full {rh} v h =
    window_lem v
    ∙ take-append rh.block_size (contents rh) (replicate rh.block_size 0) (length-contents rh ∙ h)

pub is_full-true : (rh : RollingHash) → rh.count ≡ rh.block_size → is_full rh ≡ true
unfolding is_full
is_full-true rh h = ground arith

ring-head :
    (buf : List ℕ) (size s k : ℕ)
    → 1 ≤ k
    → ring buf size s k ≡ get_or buf (s % size) 0 ∷ drop 1 (ring buf size s k)
unfolding ring
ring-head buf size s zero h = absurd (omega arith)
ring-head buf size s (suc k) h = refl

-- The oldest byte stands at `start_pos`.
pub oldest :
    {rh : RollingHash}
    → IsValid rh
    → 1 ≤ rh.count
    → contents rh ≡ get_or rh.window (start_pos rh) 0 ∷ drop 1 (contents rh)
oldest {rh} v h =
    ring-head rh.window rh.size (start_pos rh) rh.count h
    ∙ ap (λ (t : ℕ). get_or rh.window t 0 ∷ drop 1 (contents rh))
        (mod-mod (rh.pos + rh.size - rh.count) rh.size)
