-- ===== src/Xor.antt =====
-- The laws of Go's `^` on unsigned numbers that the decoding of addresses stands on.
use Prim.Native.Nat.{bit_xor, digits, differ, bit_xor-bitwise}
use p2p_file_sync.Prelude.{ℕ, zero, suc, ◌+◌, ◌*◌, ◌/◌, ◌%◌, ◌≤◌, ◌<◌, ◌≡◌, refl, ap, ◌∙◌, arith}

-- With any count of digits that serves for the first number.
abbrev xor_upto : ℕ → ℕ → ℕ → ℕ
xor_upto n a b = digits (λ b. b) differ n a b

xor_upto-enough : (m n a b : ℕ) → a ≤ m → a ≤ n → xor_upto m a b ≡ xor_upto n a b
xor_upto-enough zero zero a b h k = refl
xor_upto-enough zero (suc n) zero b h k = refl
xor_upto-enough (suc m) zero zero b h k = refl
xor_upto-enough (suc m) (suc n) zero b h k = refl
xor_upto-enough zero n (suc a) b h k = absurd (omega arith)
xor_upto-enough (suc m) zero (suc a) b h k = absurd (omega arith)
xor_upto-enough (suc m) (suc n) (suc a) b h k =
    ap (λ (t : ℕ). t * 2 + differ (suc a % 2) (b % 2))
      (xor_upto-enough m n (suc a / 2) (b / 2) (omega arith) (omega arith))

-- A number with no digits left changes nothing.
bit_xor_zero : (b : ℕ) → bit_xor 0 b ≡ b
bit_xor_zero b = bit_xor-bitwise 0 b

-- The lowest digit apart.
bit_xor_digit : (a b : ℕ) → bit_xor a b ≡ bit_xor (a / 2) (b / 2) * 2 + differ (a % 2) (b % 2)
bit_xor_digit zero b = omega (arith, bit_xor_zero b, bit_xor_zero (b / 2))
bit_xor_digit (suc a) b =
    let high = bit_xor-bitwise (suc a / 2) (b / 2) in
    let all = bit_xor-bitwise (suc a) b in
    omega (
      arith,
      all,
      high,
      xor_upto-enough (suc a / 2) a (suc a / 2) (b / 2) (omega arith) (omega arith),
    )

differ-lt : (p q : ℕ) → p < 2 → q < 2 → differ p q < 2
differ-lt zero q h k = k
differ-lt (suc zero) zero h k = h
differ-lt (suc zero) (suc zero) h k = omega arith
differ-lt (suc zero) (suc (suc q)) h k = absurd (omega arith)
differ-lt (suc (suc p)) q h k = absurd (omega arith)

differ_twice : (p q : ℕ) → p < 2 → q < 2 → differ (differ p q) q ≡ p
differ_twice zero zero h k = refl
differ_twice zero (suc zero) h k = refl
differ_twice (suc zero) zero h k = refl
differ_twice (suc zero) (suc zero) h k = refl
differ_twice zero (suc (suc q)) h k = absurd (omega arith)
differ_twice (suc zero) (suc (suc q)) h k = absurd (omega arith)
differ_twice (suc (suc p)) q h k = absurd (omega arith)

twice_upto : (n a b : ℕ) → a ≤ n → b ≤ n → bit_xor (bit_xor a b) b ≡ a
twice_upto zero zero zero h k = refl
twice_upto zero zero (suc b) h k = absurd (omega arith)
twice_upto zero (suc a) b h k = absurd (omega arith)
twice_upto (suc n) a b h k =
    let x = bit_xor a b in
    let step = bit_xor_digit a b in
    let small = differ-lt (a % 2) (b % 2) (omega arith) (omega arith) in
    let high : x / 2 ≡ bit_xor (a / 2) (b / 2) = omega (arith, step, small) in
    let low : x % 2 ≡ differ (a % 2) (b % 2) = omega (arith, step, small) in
    omega (
      arith,
      bit_xor_digit x b,
      ap (λ (t : ℕ). bit_xor t (b / 2)) high
          ∙ twice_upto n (a / 2) (b / 2) (omega arith) (omega arith),
      ap (λ (t : ℕ). differ t (b % 2)) low
          ∙ differ_twice (a % 2) (b % 2) (omega arith) (omega arith),
    )

pub bit_xor_twice : (a b : ℕ) → bit_xor (bit_xor a b) b ≡ a
bit_xor_twice a b = twice_upto (a + b) a b (omega arith) (omega arith)

abbrev pub pow2 : ℕ → ℕ
pow2 zero = 1
pow2 (suc k) = 2 * pow2 k

pub bit_xor-lt : (k a b : ℕ) → a < pow2 k → b < pow2 k → bit_xor a b < pow2 k
bit_xor-lt zero zero zero h l = omega (arith, bit_xor_zero 0)
bit_xor-lt zero zero (suc b) h l = absurd (omega arith)
bit_xor-lt zero (suc a) b h l = absurd (omega arith)
bit_xor-lt (suc k) a b h l = omega (
  arith,
  bit_xor_digit a b,
  differ-lt (a % 2) (b % 2) (omega arith) (omega arith),
  bit_xor-lt k (a / 2) (b / 2) (omega arith) (omega arith),
)
