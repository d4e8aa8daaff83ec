-- ===== src/Rolling/Slide.antt =====
-- The rolling hash from NewRollingHash on, fed with a run of bytes as the delta generator feeds it.
use mathlib.Core.List.{foldl}
use p2p_file_sync.Prelude.{
  ℕ, zero, suc, ◌+◌, ◌-◌, ◌≤◌, ◌<◌, ◌≡◌, ap, ap₂, subst, sym, ◌∙◌, List, [], ◌∷◌, ◌++◌, arith, ltb,
  leb, length, drop, replicate, append-nil, append_assoc, length-append, length-take, length-drop,
  drop-drop, drop-append_le, length-replicate, Bool-cases, inl, inr, if◌then◌else◌,
}
use p2p_file_sync.Rolling.{
  RollingHash, adler, pack, reset, clamp_block_size, new_rolling_hash, roll_in, roll, sum, is_full,
  max_block_size,
}
use p2p_file_sync.Rolling.Circular.{ring}
use p2p_file_sync.Rolling.Laws.{
  contents, length-contents, IsValid, roll_in_lem, roll_lem, sum_lem, reset-IsValid,
}

-- A hash as NewRollingHash returns it: an empty window of `n` zeros.
abbrev pub empty_hash : ℕ → RollingHash
empty_hash n = record {
  a = 1;
  b = 0;
  window = replicate n 0;
  size = n;
  pos = 0;
  count = 0;
  block_size = n;
}

-- The block size is kept between 1 and MaxBlockSize.
pub clamp_block_size_bounds :
    (n : ℕ) → (0 < clamp_block_size n) × (clamp_block_size n ≤ max_block_size)
unfolding clamp_block_size
clamp_block_size_bounds n = ground arith

pub clamp_block_size_same : (n : ℕ) → 0 < n → n ≤ max_block_size → clamp_block_size n ≡ n
unfolding clamp_block_size
clamp_block_size_same n h k = ground arith

pub reset-eq : (rh : RollingHash) (n : ℕ) → length rh.window ≡ n → reset rh n ≡ empty_hash n
unfolding reset
reset-eq rh n h = rw h

-- What the pool returns does not show in a new hash.
pub new_rolling_hash-eq :
    (pooled : RollingHash) (n : ℕ) → new_rolling_hash pooled n ≡ empty_hash (clamp_block_size n)
unfolding new_rolling_hash
new_rolling_hash-eq pooled n =
    let size : ℕ = clamp_block_size n in
    reset-eq _ size (elim (Bool-cases (ltb (length pooled.window) size)) [
      | inl e ↦ rw e (length-replicate size 0)
      | inr e ↦ rw e (ground (arith, length-take size pooled.window))
    ])

pub empty_hash-IsValid : (n : ℕ) → 0 < n → IsValid (empty_hash n)
empty_hash-IsValid n h = subst IsValid (reset-eq (empty_hash n) n (length-replicate n 0)) (
    let e : length (replicate n (zero)) ≡ n = length-replicate n 0 in
    subst (λ (t : ℕ). IsValid (reset (empty_hash n) t)) e
      (reset-IsValid (empty_hash n) (omega arith)))

-- A byte enters as at the end of the loop of GenerateDelta: by Roll if the window is full.
abbrev pub slide : RollingHash → ℕ → RollingHash
slide rh byte = if is_full rh then roll rh byte else (roll_in rh byte).0

pub slide_lem :
    {rh : RollingHash} (byte : ℕ)
    → IsValid rh
    → IsValid (slide rh byte)
      × ((slide rh byte).block_size ≡ rh.block_size)
      × (contents (slide rh byte)
          ≡ drop (rh.count + 1 - rh.block_size) (contents rh ++ (byte ∷ [])))
unfolding is_full
slide_lem {rh} byte v = elim (Bool-cases (leb rh.block_size rh.count)) [
  | inl e ↦
      let full : rh.count ≡ rh.block_size = ground arith in
      let (valid, bytes, _, size) = roll_lem byte v full in
      rw e (
        valid,
        size,
        bytes
            ∙ drop-append_le 1 (contents rh) (byte ∷ []) (omega (arith, length-contents rh))
            ∙ ap (λ (t : ℕ). drop t (contents rh ++ (byte ∷ []))) {x = 1} (omega arith),
      )
  | inr e ↦
      let (valid, bytes, _, size, _) = roll_in_lem byte v (ground arith) in
      rw e (
        valid,
        size,
        bytes ∙ ap (λ (t : ℕ). drop t (contents rh ++ (byte ∷ []))) {x = zero} (ground arith),
      )
]

pub slide_all :
    (bytes : List ℕ) {rh : RollingHash}
    → IsValid rh
    → IsValid (foldl slide rh bytes)
      × (contents (foldl slide rh bytes)
          ≡ drop (rh.count + length bytes - rh.block_size) (contents rh ++ bytes))
slide_all [] {rh} v = (
  v,
  sym (append-nil (contents rh))
      ∙ ap (λ (t : ℕ). drop t (contents rh ++ [])) {x = zero} (omega (arith, v.count_in)),
)
slide_all (b ∷ bytes) {rh} v =
    let (valid, size, now) = slide_lem b v in
    let over : ℕ = rh.count + 1 - rh.block_size in
    let count : (slide rh b).count ≡ rh.count + 1 - over =
      sym (length-contents (slide rh b))
      ∙ ap length now
      ∙ length-drop over (contents rh ++ (b ∷ []))
      ∙ ap (λ (t : ℕ). t - over)
          (length-append (contents rh) (b ∷ []) ∙ ap (λ (t : ℕ). t + 1) (length-contents rh)) in
    let (final, rest) = slide_all bytes valid in
    (
      final,
      rest
          ∙ ap₂ (λ (t : ℕ) (u : List ℕ). drop t (u ++ bytes))
              {y = (rh.count + 1 - over) + length bytes - rh.block_size}
              (ap₂ (λ (t u : ℕ). t + length bytes - u) count size) now
          ∙ ap (drop ((rh.count + 1 - over) + length bytes - rh.block_size)) (
              drop-append_le over (contents rh ++ (b ∷ [])) bytes
                (omega (arith, length-append (contents rh) (b ∷ []), length-contents rh)))
          ∙ drop-drop over ((rh.count + 1 - over) + length bytes - rh.block_size)
              ((contents rh ++ (b ∷ [])) ++ bytes)
          ∙ ap₂ (λ (t : ℕ) (u : List ℕ). drop t u)
              {y = rh.count + suc (length bytes) - rh.block_size}
              (omega (arith, v.count_in, v.one_size)) (append_assoc (contents rh) (b ∷ []) bytes),
    )

-- A hash from NewRollingHash that has been fed any bytes, by RollIn until it is full and by Roll
-- from then on, has the weak hash of the last of them, as many as the clamped block size, whatever
-- the pool returned.
pub sum-slide :
    (pooled : RollingHash) (n : ℕ) (bytes : List ℕ)
    → sum (foldl slide (new_rolling_hash pooled n) bytes)
      ≡ pack (adler (1, 0) (drop (length bytes - clamp_block_size n) bytes))
unfolding ring
sum-slide pooled n bytes = rw (new_rolling_hash-eq pooled n) (
    let size : ℕ = clamp_block_size n in
    let (valid, bytes_eq) =
      slide_all bytes (empty_hash-IsValid size ((clamp_block_size_bounds n).0)) in
    sum_lem valid
    ∙ ap (λ (t : List ℕ). pack (adler (1, 0) t))
        (bytes_eq
          ∙ ap (λ (t : ℕ). drop t bytes) {y = length bytes - clamp_block_size n} (omega arith)))
