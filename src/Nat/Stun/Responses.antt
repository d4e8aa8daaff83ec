-- ===== src/Nat/Stun/Responses.antt =====
-- What the parser makes of a binding response that is written as RFC 5389 says.
use Prim.Native.Nat.{bit_xor}
use p2p_file_sync.Prelude.{
  ℕ, zero, suc, ◌+◌, ◌-◌, ◌%◌, ◌≤◌, ◌<◌, ◌^◌, ◌==◌, ◌≡◌, ◌≢◌, refl, ap, ap₂, sym, ◌∙◌, true, false,
  List, [], ◌∷◌, ◌++◌, append_assoc, arith, ltb, if◌then◌else◌, length, length-append,
  length-replicate, drop, take-append, drop-append, take_all, replicate, err, ok,
}
use p2p_file_sync.Bytes.{
  All, IsByte, put_u16, put_u32, get_uint, get_uint-put_u16, get_uint-put_u32, bytes_equal_refl,
}
use p2p_file_sync.Xor.{bit_xor_twice, bit_xor-lt}
use p2p_file_sync.Nat.Stun.{
  stun_binding_response, stun_attr_mapped_address, stun_attr_xor_mapped_address, stun_magic_cookie,
  transaction_mismatch, padding, parse_attribute, parse_value, parse_attributes,
  parse_xor_mapped_address, transaction_matches, parse_body, parse_header, parse_stun_response,
}

-- How many bytes are missing to a multiple of four.
abbrev pub to_four : ℕ → ℕ
to_four n = (4 - n % 4) % 4

-- An attribute, padded to four bytes, and what follows it.
abbrev pub attribute : ℕ → List ℕ → List ℕ → List ℕ
attribute t value rest =
    put_u16 t
    ++ (put_u16 (length value) ++ (value ++ (replicate (to_four (length value)) 0 ++ rest)))

-- Attributes of types other than the two that carry an address.
abbrev pub foreign : List (ℕ × List ℕ) → List ℕ → List ℕ
foreign [] rest = rest
foreign ((t, value) ∷ attributes) rest = attribute t value (foreign attributes rest)

abbrev pub IsForeign : ℕ × List ℕ → Type 0
IsForeign (t, value) =
    (t < 2 ^ 16)
    × (t ≢ stun_attr_xor_mapped_address)
    × (t ≢ stun_attr_mapped_address)
    × (length value < 2 ^ 16)

-- The value of XOR-MAPPED-ADDRESS for IPv4.
abbrev pub xor_value : List ℕ → ℕ → List ℕ
xor_value ip port =
    0 ∷ 1 ∷ (put_u16 (bit_xor port 0x2112) ++ put_u32 (bit_xor (get_uint ip) stun_magic_cookie))

abbrev pub response : List ℕ → List ℕ → List ℕ
response transaction_id attributes =
    put_u16 stun_binding_response
    ++ (put_u16 (length attributes)
        ++ (put_u32 stun_magic_cookie ++ (transaction_id ++ attributes)))

at_least : (a b : ℕ) → b ≤ a → ltb a b ≡ false
at_least a b h = ground arith

differs : (a b : ℕ) → a ≢ b → (a == b) ≡ false
differs a b h = ground arith

padding_lem : (n : ℕ) → padding n ≡ to_four n
unfolding padding
padding_lem n = ground arith

drop_value :
    (value rest : List ℕ)
    → drop
        (length value + padding (length value))
        (value ++ (replicate (to_four (length value)) 0 ++ rest))
      ≡ rest
drop_value value rest =
    let n = length value + to_four (length value) in
    let pad : List ℕ = replicate (to_four (length value)) 0 in
    ap (λ (t : ℕ). drop (length value + t) (value ++ (pad ++ rest))) (padding_lem (length value))
    ∙ ap (drop n) (sym (append_assoc value pad rest))
    ∙ drop-append n (value ++ pad) rest (
        length-append value pad
        ∙ ap (λ (t : ℕ). length value + t) (length-replicate (to_four (length value)) 0))

-- A round reads one attribute.
parse_attributes-attribute :
    (fuel : ℕ) (cookie : List ℕ) (t : ℕ) (value rest : List ℕ)
    → t < 2 ^ 16
    → length value < 2 ^ 16
    → parse_attributes (suc fuel) cookie (attribute t value rest)
      ≡ parse_attribute cookie t value (parse_attributes fuel cookie rest)
unfolding parse_attributes parse_value
parse_attributes-attribute fuel cookie t value rest h k =
    let after : List ℕ = value ++ (replicate (to_four (length value)) 0 ++ rest) in
    rw (at_least (length (attribute t value rest)) 4 (omega arith)) (
      ap₂ (λ (a b : ℕ). parse_value (parse_attributes fuel cookie) cookie a b after)
        (get_uint-put_u16 t h) (get_uint-put_u16 (length value) k)
      ∙ rw
          (at_least (length after) (length value)
            (omega (arith, length-append value (replicate (to_four (length value)) 0 ++ rest))))
          (ap₂ (λ (v r : List ℕ). parse_attribute cookie t v (parse_attributes fuel cookie r))
            (take-append (length value) value (replicate (to_four (length value)) 0 ++ rest) refl)
            (drop_value value rest)))

four :
    {a b c d a' b' c' d' : ℕ}
    → a ≡ a'
    → b ≡ b'
    → c ≡ c'
    → d ≡ d'
    → (a ∷ b ∷ c ∷ d ∷ []) ≡ (a' ∷ b' ∷ c' ∷ d' ∷ [])
four p q r s = cc

put_u32-get_uint : (ip : List ℕ) → length ip ≡ 4 → All IsByte ip → put_u32 (get_uint ip) ≡ ip
put_u32-get_uint (a ∷ b ∷ c ∷ d ∷ []) h (p, (q, (r, (s, k)))) =
    four (omega arith) (omega arith) (omega arith) (omega arith)
put_u32-get_uint [] h k = absurd (omega arith)
put_u32-get_uint (a ∷ []) h k = absurd (omega arith)
put_u32-get_uint (a ∷ b ∷ []) h k = absurd (omega arith)
put_u32-get_uint (a ∷ b ∷ c ∷ []) h k = absurd (omega arith)
put_u32-get_uint (a ∷ b ∷ c ∷ d ∷ e ∷ r) h k = absurd (omega arith)

get_uint-four : (ip : List ℕ) → length ip ≡ 4 → All IsByte ip → get_uint ip < 2 ^ 32
get_uint-four (a ∷ b ∷ c ∷ d ∷ []) h (p, (q, (r, (s, k)))) = omega arith
get_uint-four [] h k = absurd (omega arith)
get_uint-four (a ∷ []) h k = absurd (omega arith)
get_uint-four (a ∷ b ∷ []) h k = absurd (omega arith)
get_uint-four (a ∷ b ∷ c ∷ []) h k = absurd (omega arith)
get_uint-four (a ∷ b ∷ c ∷ d ∷ e ∷ r) h k = absurd (omega arith)

parse_xor_mapped_address-xor_value :
    (ip : List ℕ) (port : ℕ)
    → length ip ≡ 4
    → All IsByte ip
    → port < 2 ^ 16
    → parse_xor_mapped_address (xor_value ip port) (put_u32 stun_magic_cookie)
      ≡ ok (record { ip = ip; port = port })
unfolding parse_xor_mapped_address
parse_xor_mapped_address-xor_value ip port h bytes small =
    let word = get_uint ip in
    ap₂ (λ (i : List ℕ) (p : ℕ). ok (record { ip = i; port = p }))
      (ap (λ (w : ℕ). put_u32 (bit_xor w stun_magic_cookie))
          (get_uint-put_u32 (bit_xor word stun_magic_cookie)
            (bit_xor-lt 32 word stun_magic_cookie (get_uint-four ip h bytes) (omega arith)))
        ∙ ap put_u32 (bit_xor_twice word stun_magic_cookie)
        ∙ put_u32-get_uint ip h bytes)
      (ap (λ (w : ℕ). bit_xor w 0x2112)
          (get_uint-put_u16 (bit_xor port 0x2112) (bit_xor-lt 16 port 0x2112 small (omega arith)))
        ∙ bit_xor_twice port 0x2112)

-- Attributes of other types are passed over.
parse_attributes-foreign :
    (attributes : List (ℕ × List ℕ)) (ip : List ℕ) (port : ℕ) (tail : List ℕ) (fuel : ℕ)
    → All IsForeign attributes
    → length ip ≡ 4
    → All IsByte ip
    → port < 2 ^ 16
    → length (foreign attributes (attribute stun_attr_xor_mapped_address (xor_value ip port) tail))
      < fuel
    → parse_attributes fuel
        (put_u32 stun_magic_cookie)
        (foreign attributes (attribute stun_attr_xor_mapped_address (xor_value ip port) tail))
      ≡ ok (record { ip = ip; port = port })
unfolding parse_attribute
parse_attributes-foreign attributes ip port tail zero f h bytes small long = absurd (omega arith)
parse_attributes-foreign [] ip port tail (suc fuel) f h bytes small long =
    parse_attributes-attribute fuel (put_u32 stun_magic_cookie) stun_attr_xor_mapped_address
      (xor_value ip port) tail (omega arith) (omega arith)
    ∙ parse_xor_mapped_address-xor_value ip port h bytes small
parse_attributes-foreign ((t, value) ∷ attributes) ip port tail (suc fuel) (f, fs) h bytes small
      long =
    let rest =
      foreign attributes (attribute stun_attr_xor_mapped_address (xor_value ip port) tail) in
    let pad : List ℕ = replicate (to_four (length value)) 0 in
    parse_attributes-attribute fuel (put_u32 stun_magic_cookie) t value rest f.0 f.3
    ∙ rw (differs t stun_attr_xor_mapped_address f.1, differs t stun_attr_mapped_address f.2)
        (parse_attributes-foreign attributes ip port tail fuel fs h bytes small
          (omega (arith, length-append value (pad ++ rest), length-append pad rest)))

transaction_matches_self : (x : List ℕ) → transaction_matches x x ≡ true
unfolding transaction_matches
transaction_matches_self x = rw (bytes_equal_refl x) (ground arith)

parse_body_all :
    (body : List ℕ)
    → parse_body (length body) (put_u32 stun_magic_cookie) body
      ≡ parse_attributes (suc (length body)) (put_u32 stun_magic_cookie) body
unfolding parse_body
parse_body_all body = rw (at_least (length body) (length body) (omega arith)) (
    ap (parse_attributes (suc (length body)) (put_u32 stun_magic_cookie))
      (take_all (length body) body (omega arith)))

-- The parser returns the address and the port of a binding response to its transaction, 12 bytes,
-- whose XOR-MAPPED-ADDRESS carries an IPv4 address, with any attributes of other types before it,
-- each padded to four bytes, and any bytes behind it, where all lengths fit their fields.
pub parse_stun_response-response :
    (transaction_id : List ℕ) (attributes : List (ℕ × List ℕ)) (ip : List ℕ) (port : ℕ)
    (tail : List ℕ)
    → length transaction_id ≡ 12
    → All IsForeign attributes
    → length ip ≡ 4
    → All IsByte ip
    → port < 2 ^ 16
    → length (foreign attributes (attribute stun_attr_xor_mapped_address (xor_value ip port) tail))
      < 2 ^ 16
    → parse_stun_response
        (response transaction_id
          (foreign attributes (attribute stun_attr_xor_mapped_address (xor_value ip port) tail)))
        transaction_id
      ≡ ok (record { ip = ip; port = port })
unfolding parse_stun_response parse_header
parse_stun_response-response transaction_id attributes ip port tail twelve f h bytes small short =
    let body =
      foreign attributes (attribute stun_attr_xor_mapped_address (xor_value ip port) tail) in
    let cookie : List ℕ = put_u32 stun_magic_cookie in
    rw
      (at_least (length (response transaction_id body)) 20
        (omega (arith, length-append transaction_id body)))
      (ap₂
          (λ (n : ℕ) (x : List ℕ).
            if transaction_matches x transaction_id
            then parse_body n cookie (drop 12 (transaction_id ++ body))
            else err transaction_mismatch)
          (get_uint-put_u16 (length body) short) (take-append 12 transaction_id body twelve)
        ∙ rw (transaction_matches_self transaction_id) (
            ap (parse_body (length body) cookie) (drop-append 12 transaction_id body twelve)
            ∙ parse_body_all body
            ∙ parse_attributes-foreign attributes ip port tail (suc (length body)) f h bytes small
                (omega arith)))
