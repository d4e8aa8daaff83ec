-- ===== src/Rolling/Circular.antt =====
-- Reading and writing a buffer whose indices go round.
use native.Mathlib.Nat.{
  mod-eq_of_lt, mod-eq-sub-mod, mod-lt, mod-add-mod, mod_self, zero-mod, add-zero,
}
use native.Mathlib.Decide.{dec_lt}
use mathlib.Core.Path.{ap₂}
use p2p_file_sync.Prelude.{
  ℕ, zero, suc, ◌+◌, ◌-◌, ◌%◌, ◌≤◌, ◌<◌, ◌≡◌, refl, sym, ap, ◌∙◌, ◌≢◌, List, [], ◌∷◌, ◌++◌, arith,
  length, set, get_or, take, drop, length-drop, take_all,
}

-- The `k` bytes from index `s` on, going round at `size`.
unfoldable pub ring : List ℕ → ℕ → ℕ → ℕ → List ℕ
ring buf size s zero = []
ring buf size s (suc k) = get_or buf (s % size) 0 ∷ ring buf size (s + 1) k

pub length-ring : (buf : List ℕ) (size s k : ℕ) → length (ring buf size s k) ≡ k
unfolding ring
length-ring buf size s zero = refl
length-ring buf size s (suc k) = ap suc (length-ring buf size (s + 1) k)

get_or-set_self : (xs : List ℕ) (i v : ℕ) → i < length xs → get_or (set xs i v) i 0 ≡ v
get_or-set_self [] i v h = absurd (omega arith)
get_or-set_self (x ∷ xs) zero v h = refl
get_or-set_self (x ∷ xs) (suc i) v h = get_or-set_self xs i v (omega arith)

get_or-set_ne : (xs : List ℕ) (i j v : ℕ) → i ≢ j → get_or (set xs i v) j 0 ≡ get_or xs j 0
get_or-set_ne [] i j v h = refl
get_or-set_ne (x ∷ xs) zero zero v h = absurd (h refl)
get_or-set_ne (x ∷ xs) zero (suc j) v h = refl
get_or-set_ne (x ∷ xs) (suc i) zero v h = refl
get_or-set_ne (x ∷ xs) (suc i) (suc j) v h = get_or-set_ne xs i j v (λ e. h (ap suc e))

-- Two indices less than a turn apart are different places.
mod-ne : (size s k : ℕ) → 0 < k → k < size → s % size ≢ (s + k) % size
mod-ne size s k h0 hk e = elim (dec_lt (s % size + k) size) [
  | yes p ↦ omega (arith, mod-add-mod s size k, mod-eq_of_lt p)
  | no p ↦ omega (
    arith,
    mod-add-mod s size k,
    mod-lt s {m = size} (omega arith),
    mod-eq-sub-mod {n = s % size + k} {m = size} (omega arith),
    mod-eq_of_lt {n = s % size + k - size} {m = size}
        (omega (arith, mod-lt s {m = size} (omega arith))),
  )
]

-- Writing just past the bytes from `s` on extends them by that byte.
pub ring-set :
    (buf : List ℕ) (size s k i v : ℕ)
    → size ≡ length buf
    → k < size
    → i ≡ (s + k) % size
    → ring (set buf i v) size s (suc k) ≡ ring buf size s k ++ (v ∷ [])
unfolding ring
ring-set buf size s zero i v hb hk e =
    ap (λ (t : ℕ). t ∷ [])
      (ap (λ (t : ℕ). get_or (set buf i v) t 0)
          (omega (arith, ap (λ (t : ℕ). t % size) (add-zero s)))
        ∙ get_or-set_self buf i v (omega (arith, mod-lt (s + 0) {m = size} (omega arith))))
ring-set buf size s (suc k) i v hb hk e =
    ap₂ ◌∷◌
      (get_or-set_ne buf i (s % size) v (λ q. mod-ne size s (suc k) (omega arith) hk (omega arith)))
      (ring-set buf size (s + 1) k i v hb (omega arith)
        (e ∙ ap (λ (t : ℕ). t % size) (omega arith)))

take-drop :
    (s k : ℕ) (buf : List ℕ)
    → s < length buf
    → take (suc k) (drop s buf) ≡ get_or buf s 0 ∷ take k (drop (suc s) buf)
take-drop s k [] h = absurd (omega arith)
take-drop zero k (x ∷ buf) h = refl
take-drop (suc s) k (x ∷ buf) h = take-drop s k buf (omega arith)

-- Bytes that do not go round are a slice.
pub ring-slice :
    (buf : List ℕ) (size s k : ℕ)
    → size ≡ length buf
    → s + k ≤ size
    → ring buf size s k ≡ take k (drop s buf)
unfolding ring
ring-slice buf size s zero hb h = refl
ring-slice buf size s (suc k) hb h =
    rw (take-drop s k buf (omega arith), mod-eq_of_lt {n = s} {m = size} (omega arith))
      (ap (λ (t : List ℕ). get_or buf s 0 ∷ t)
        (ring-slice buf size (s + 1) k hb (omega arith)
          ∙ ap (λ (t : ℕ). take k (drop t buf)) {y = suc s} (omega arith)))

pub ring-add :
    (buf : List ℕ) (size s n m : ℕ)
    → ring buf size s (n + m) ≡ ring buf size s n ++ ring buf size (s + n) m
unfolding ring
ring-add buf size s zero m = ap₂ (λ (t u : ℕ). ring buf size t u) (omega arith) (omega arith)
ring-add buf size s (suc n) m =
    ap (λ (t : ℕ). ring buf size s t) {y = suc (n + m)} (omega arith)
    ∙ ap (λ (t : List ℕ). get_or buf (s % size) 0 ∷ t)
        (ring-add buf size (s + 1) n m
          ∙ ap (λ (t : ℕ). ring buf size (s + 1) n ++ ring buf size t m) (omega arith))

-- Only the place of the first index in the buffer matters.
pub ring-congr :
    (buf : List ℕ) (size s t k : ℕ) → s % size ≡ t % size → ring buf size s k ≡ ring buf size t k
unfolding ring
ring-congr buf size s t zero h = refl
ring-congr buf size s t (suc k) h =
    ap₂ (λ (i : ℕ) (u : List ℕ). get_or buf i 0 ∷ u) h
      (ring-congr buf size (s + 1) (t + 1) k
        (sym (mod-add-mod s size 1) ∙ ap (λ (i : ℕ). (i + 1) % size) h ∙ mod-add-mod t size 1))

-- Bytes from `s` on that reach the end of the buffer: its tail, and then its front.
pub ring-wrap :
    (buf : List ℕ) (size s k : ℕ)
    → size ≡ length buf
    → s ≤ size
    → size ≤ s + k
    → s + k ≤ size + size
    → ring buf size s k ≡ drop s buf ++ take (k - (size - s)) buf
ring-wrap buf size s k hb hs h1 h2 =
    ap (λ (t : ℕ). ring buf size s t) {y = (size - s) + (k - (size - s))} (omega arith)
    ∙ ring-add buf size s (size - s) (k - (size - s))
    ∙ ap₂ (λ (t u : List ℕ). t ++ u)
        (ring-slice buf size s (size - s) hb (omega arith)
          ∙ take_all (size - s) (drop s buf) (omega (arith, length-drop s buf)))
        (ring-congr buf size (s + (size - s)) 0 (k - (size - s)) (
            ap (λ (t : ℕ). t % size) {y = size} (omega arith) ∙ mod_self size ∙ sym (zero-mod size))
          ∙ ring-slice buf size 0 (k - (size - s)) hb (omega arith))
