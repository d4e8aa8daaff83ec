-- ===== src/Bytes.antt =====
-- encoding/binary's big-endian words, over lists of bytes (numbers below 256), and bytes.Equal.
use Prim.Native.Char.{code}
use Prim.Native.String.{String}
use mathlib.Core.List.{flatten}
use p2p_file_sync.Prelude.{
  ℕ, ◌+◌, ◌*◌, ◌/◌, ◌%◌, ◌^◌, ◌<◌, ◌≡◌, ◌⊎◌, inl, inr, refl, Bool, true, false, ◌&&◌, List, [], ◌∷◌,
  ◌++◌, arith, ◌==◌,
}

-- Every element of the list satisfies the predicate.
abbrev pub All {ℓ κ} : {A : Type ℓ} → (A → Type κ) → List A → Type κ
All P [] = Unit
All P (x ∷ xs) = P x × All P xs

abbrev pub IsByte : ℕ → Type 0
IsByte b = b < 256

pub All-append {ℓ κ} :
    {A : Type ℓ} (P : A → Type κ) (xs ys : List A) → All P xs → All P ys → All P (xs ++ ys)
All-append P [] ys h k = k
All-append P (x ∷ xs) ys h k = (h.0, All-append P xs ys h.1 k)

pub All-map {ℓ κ} :
    {A : Type ℓ} (P Q : A → Type κ) → ((x : A) → P x → Q x) → (xs : List A) → All P xs → All Q xs
All-map P Q f [] h = tt
All-map P Q f (x ∷ xs) h = (f x h.0, All-map P Q f xs h.1)

-- Some element of the list satisfies the predicate.
abbrev pub Any {ℓ} : {A : Type ℓ} → (A → Type 0) → List A → Type 0
Any P [] = ⊥
Any P (x ∷ xs) = P x ⊎ Any P xs

module _ {ℓ} {A : Type ℓ} (P : A → Type 0) where
  pub Any-left : (xs ys : List A) → Any P xs → Any P (xs ++ ys)
  Any-left [] ys h = absurd h
  Any-left (x ∷ xs) ys (inl h) = inl h
  Any-left (x ∷ xs) ys (inr h) = inr (Any-left xs ys h)

  pub Any-right : (xs ys : List A) → Any P ys → Any P (xs ++ ys)
  Any-right [] ys h = h
  Any-right (x ∷ xs) ys h = inr (Any-right xs ys h)

pub Any-map {ℓ} :
    {A : Type ℓ} (P Q : A → Type 0) → ((x : A) → P x → Q x) → (xs : List A) → Any P xs → Any Q xs
Any-map P Q f [] h = absurd h
Any-map P Q f (x ∷ xs) (inl h) = inl (f x h)
Any-map P Q f (x ∷ xs) (inr h) = inr (Any-map P Q f xs h)

pub Any-All :
    {A : Type 0} {R : Type 0} (P Q : A → Type 0) (xs : List A)
    → ((x : A) → P x → Q x → R)
    → Any P xs
    → All Q xs
    → R
Any-All P Q [] f h k = absurd h
Any-All P Q (x ∷ xs) f (inl h) k = f x h k.0
Any-All P Q (x ∷ xs) f (inr h) k = Any-All P Q xs f h k.1

pub All-map₂ :
    {A : Type 0} (P Q R : A → Type 0)
    → ((x : A) → P x → Q x → R x)
    → (xs : List A) → All P xs
    → All Q xs
    → All R xs
All-map₂ P Q R f [] h k = tt
All-map₂ P Q R f (x ∷ xs) h k = (f x h.0 k.0, All-map₂ P Q R f xs h.1 k.1)

All-append_inv :
    {A : Type 0} (P : A → Type 0) (xs ys : List A) → All P (xs ++ ys) → All P xs × All P ys
All-append_inv P [] ys h = (tt, h)
All-append_inv P (x ∷ xs) ys h = let (a, b) = All-append_inv P xs ys h.1 in ((h.0, a), b)

pub All-flatten :
    {A : Type 0} (P : A → Type 0) (xss : List (List A)) → All (All P) xss → All P (flatten xss)
unfolding flatten
All-flatten P [] h = tt
All-flatten P (xs ∷ xss) h = All-append P xs (flatten xss) h.0 (All-flatten P xss h.1)

pub flatten-All :
    {A : Type 0} (P : A → Type 0) (xss : List (List A)) → All P (flatten xss) → All (All P) xss
unfolding flatten
flatten-All P [] h = tt
flatten-All P (xs ∷ xss) h =
    let (a, b) = All-append_inv P xs (flatten xss) h in (a, flatten-All P xss b)

-- binary.BigEndian.PutUint16, PutUint32 and PutUint64 of `w` converted to that width.
abbrev pub put_u16 : ℕ → List ℕ
put_u16 w = (w / 2 ^ 8 % 256) ∷ (w % 256) ∷ []

abbrev pub put_u32 : ℕ → List ℕ
put_u32 w = (w / 2 ^ 24 % 256) ∷ (w / 2 ^ 16 % 256) ∷ (w / 2 ^ 8 % 256) ∷ (w % 256) ∷ []

abbrev pub put_u64 : ℕ → List ℕ
put_u64 w = put_u32 (w / 2 ^ 32) ++ put_u32 w

-- The bytes read as one big-endian number: binary.BigEndian.Uint16, Uint32, Uint64 of a slice.
abbrev pub get_word : List ℕ → ℕ → ℕ
get_word [] acc = acc
get_word (b ∷ bs) acc = get_word bs (acc * 256 + b)

abbrev pub get_uint : List ℕ → ℕ
get_uint bs = get_word bs 0

pub get_uint-put_u16 : (w : ℕ) → w < 2 ^ 16 → get_uint (put_u16 w) ≡ w
get_uint-put_u16 w h = omega arith

pub get_uint-put_u32 : (w : ℕ) → w < 2 ^ 32 → get_uint (put_u32 w) ≡ w
get_uint-put_u32 w h = omega arith

pub get_uint-put_u64 : (w : ℕ) → w < 2 ^ 64 → get_uint (put_u64 w) ≡ w
get_uint-put_u64 w h = omega arith

-- bytes.Equal, and the comparison of two [32]byte values.
unfoldable pub bytes_equal : List ℕ → List ℕ → Bool
bytes_equal [] [] = true
bytes_equal [] (y ∷ ys) = false
bytes_equal (x ∷ xs) [] = false
bytes_equal (x ∷ xs) (y ∷ ys) = (x == y) && bytes_equal xs ys

pub bytes_equal→eq : (xs ys : List ℕ) → bytes_equal xs ys ≡ true → xs ≡ ys
unfolding bytes_equal
bytes_equal→eq [] [] h = refl
bytes_equal→eq [] (y ∷ ys) h = ground arith
bytes_equal→eq (x ∷ xs) [] h = ground arith
bytes_equal→eq (x ∷ xs) (y ∷ ys) h = ground (arith, bytes_equal→eq xs ys)

pub bytes_equal_refl : (xs : List ℕ) → bytes_equal xs xs ≡ true
unfolding bytes_equal
bytes_equal_refl [] = refl
bytes_equal_refl (x ∷ xs) = ground (arith, bytes_equal_refl xs)

-- The bytes of an ASCII literal.
abbrev pub text_bytes : String → List ℕ
text_bytes String.[] = []
text_bytes (String.◌∷◌ c rest) = code c ∷ text_bytes rest
