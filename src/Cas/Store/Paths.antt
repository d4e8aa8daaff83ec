-- ===== src/Cas/Store/Paths.antt =====
-- Different hashes have different files, none of which is a temporary one.
use p2p_file_sync.Prelude.{
  ℕ, suc, ◌+◌, ◌*◌, ◌/◌, ◌%◌, ◌≡◌, ◌≢◌, ◌<◌, refl, ap, ap₂, sym, ◌∙◌, List, [], ◌∷◌, false, ltb,
  arith, length, length-append,
}
use p2p_file_sync.Bytes.{All, IsByte}
use p2p_file_sync.Cas.Store.{hex_digit, hex_encode, join_parts, chunk_path, tmp_path}

hex_digit_inj : (d e : ℕ) → d < 16 → e < 16 → hex_digit d ≡ hex_digit e → d ≡ e
unfolding hex_digit
hex_digit_inj d e h k same = ground arith

byte_halves : (b c : ℕ) → b / 16 ≡ c / 16 → b % 16 ≡ c % 16 → b ≡ c
byte_halves b c h k = omega arith

hex_encode_inj :
    (xs ys : List ℕ) → All IsByte xs → All IsByte ys → hex_encode xs ≡ hex_encode ys → xs ≡ ys
unfolding hex_encode
hex_encode_inj [] [] h k e = refl
hex_encode_inj [] (y ∷ ys) h k e = cc
hex_encode_inj (x ∷ xs) [] h k e = cc
hex_encode_inj (x ∷ xs) (y ∷ ys) (h, hs) (k, ks) e =
    let high : hex_digit (x / 16) ≡ hex_digit (y / 16) = cc in
    let low : hex_digit (x % 16) ≡ hex_digit (y % 16) = cc in
    let rest : hex_encode xs ≡ hex_encode ys = cc in
    ap₂ (λ (b : ℕ) (bs : List ℕ). b ∷ bs)
      (byte_halves x y (hex_digit_inj (x / 16) (y / 16) (omega arith) (omega arith) high)
        (hex_digit_inj (x % 16) (y % 16) (omega arith) (omega arith) low))
      (hex_encode_inj xs ys hs ks rest)

pub length-hex_encode : (xs : List ℕ) → length (hex_encode xs) ≡ 2 * length xs
unfolding hex_encode
length-hex_encode [] = refl
length-hex_encode (x ∷ xs) = omega (arith, length-hex_encode xs)

long_enough : (n : ℕ) → ltb (suc (suc (suc n))) 2 ≡ false
long_enough n = ground arith

same_parts :
    {a b c a' b' c' : ℕ} {r r' : List ℕ}
    → (a ∷ b ∷ 47 ∷ c ∷ r) ≡ (a' ∷ b' ∷ 47 ∷ c' ∷ r')
    → (a ∷ b ∷ c ∷ r) ≡ (a' ∷ b' ∷ c' ∷ r')
same_parts e = cc

chunk_path-long : (a b c : ℕ) (r : List ℕ) → chunk_path (a ∷ b ∷ c ∷ r) ≡ a ∷ b ∷ 47 ∷ c ∷ r
unfolding chunk_path join_parts
chunk_path-long a b c r = rw (long_enough (length r)) refl

chunk_path_inj : (u v : List ℕ) → 2 < length u → 2 < length v → chunk_path u ≡ chunk_path v → u ≡ v
chunk_path_inj (a ∷ b ∷ c ∷ r) (a' ∷ b' ∷ c' ∷ r') h k e =
    same_parts (sym (chunk_path-long a b c r) ∙ e ∙ chunk_path-long a' b' c' r')
chunk_path_inj [] v h k e = absurd (omega arith)
chunk_path_inj (a ∷ []) v h k e = absurd (omega arith)
chunk_path_inj (a ∷ b ∷ []) v h k e = absurd (omega arith)
chunk_path_inj (a ∷ b ∷ c ∷ r) [] h k e = absurd (omega arith)
chunk_path_inj (a ∷ b ∷ c ∷ r) (a' ∷ []) h k e = absurd (omega arith)
chunk_path_inj (a ∷ b ∷ c ∷ r) (a' ∷ b' ∷ []) h k e = absurd (omega arith)

length-chunk_path : (u : List ℕ) → 2 < length u → length (chunk_path u) ≡ length u + 1
length-chunk_path (a ∷ b ∷ c ∷ r) h = ap length (chunk_path-long a b c r) ∙ omega arith
length-chunk_path [] h = absurd (omega arith)
length-chunk_path (a ∷ []) h = absurd (omega arith)
length-chunk_path (a ∷ b ∷ []) h = absurd (omega arith)

-- A SHA-256 value.
abbrev pub IsHash : List ℕ → Type 0
IsHash hash = (length hash ≡ 32) × All IsByte hash

-- The file of a hash.
abbrev pub path_of : List ℕ → List ℕ
path_of hash = chunk_path (hex_encode hash)

pub path_of_inj : (h k : List ℕ) → IsHash h → IsHash k → path_of h ≡ path_of k → h ≡ k
path_of_inj h k (n, bs) (m, cs) e = hex_encode_inj h k bs cs (
    chunk_path_inj (hex_encode h) (hex_encode k) (omega (arith, length-hex_encode h))
      (omega (arith, length-hex_encode k)) e)

length-path_of : (h : List ℕ) → IsHash h → length (path_of h) ≡ 65
length-path_of h (n, bs) =
    length-chunk_path (hex_encode h) (omega (arith, length-hex_encode h))
    ∙ omega (arith, length-hex_encode h)

pub tmp_path≢path_of : (h k : List ℕ) → IsHash h → IsHash k → tmp_path (path_of h) ≢ path_of k
unfolding tmp_path
tmp_path≢path_of h k a b e = absurd (
    omega (
      arith,
      ap length e,
      length-path_of h a,
      length-path_of k b,
      length-append (path_of h) (46 ∷ 116 ∷ 109 ∷ 112 ∷ []),
    ))
