-- ===== src/Nat/Stun/Fuel.antt =====
-- The loop over the attributes ends by itself.
use p2p_file_sync.Prelude.{
  ℕ, zero, suc, ◌+◌, ◌≤◌, ◌<◌, ◌==◌, ◌≡◌, ◌≢◌, false, List, arith, ltb, if-cases, length, take,
  drop, length-take, length-drop, Outcome, err,
}
use p2p_file_sync.Bytes.{get_uint}
use p2p_file_sync.Nat.Stun.{
  MappedAddress, StunError, no_fuel, stun_attr_mapped_address, stun_attr_xor_mapped_address,
  stun_binding_response, stun_binding_error, stun_magic_cookie, padding, parse_xor_mapped_address,
  parse_mapped_address, parse_attribute, parse_value, parse_attributes, transaction_matches,
  parse_body, parse_header, parse_stun_response,
}

not_less : (a b : ℕ) → ltb a b ≡ false → b ≤ a
not_less a b h = ground arith

-- The result is one of the program's.
abbrev Ends : Outcome StunError MappedAddress → Type 0
Ends x = x ≢ err no_fuel

parse_xor_mapped_address-Ends :
    (bytes cookie : List ℕ) → Ends (parse_xor_mapped_address bytes cookie)
unfolding parse_xor_mapped_address
parse_xor_mapped_address-Ends bytes cookie h = ground arith

parse_mapped_address-Ends : (bytes : List ℕ) → Ends (parse_mapped_address bytes)
unfolding parse_mapped_address
parse_mapped_address-Ends bytes h = ground arith

parse_attribute-Ends :
    (cookie : List ℕ) (t : ℕ) (value : List ℕ) (continue : Outcome StunError MappedAddress)
    → Ends continue
    → Ends (parse_attribute cookie t value continue)
unfolding parse_attribute
parse_attribute-Ends cookie t value continue h =
    if-cases Ends (t == stun_attr_xor_mapped_address) _ _
      (λ e. parse_xor_mapped_address-Ends value cookie)
      (λ e.
        if-cases Ends (t == stun_attr_mapped_address) _ _ (λ f. parse_mapped_address-Ends value)
          (λ f. h))

-- More rounds than there are bytes are enough, since each round takes four of them at least.
parse_attributes-Ends :
    (fuel : ℕ) (cookie rest : List ℕ)
    → length rest < fuel
    → Ends (parse_attributes fuel cookie rest)
unfolding parse_attributes parse_value
parse_attributes-Ends zero cookie rest h = absurd (omega arith)
parse_attributes-Ends (suc fuel) cookie rest h =
    let attr_type = get_uint (take 2 rest) in
    let attr_len = get_uint (take 2 (drop 2 rest)) in
    let after = drop 4 rest in
    let next = drop (attr_len + padding attr_len) after in
    if-cases Ends (ltb (length rest) 4) _ _ (λ e f. cc)
      (λ e.
        if-cases Ends (ltb (length after) attr_len) _ _ (λ f g. cc)
          (λ f.
            parse_attribute-Ends cookie attr_type (take attr_len after)
              (parse_attributes fuel cookie next)
              (parse_attributes-Ends fuel cookie next (
                omega (
                  arith,
                  not_less (length rest) 4 e,
                  length-drop 4 rest,
                  length-drop (attr_len + padding attr_len) after,
                )))))

parse_body-Ends : (n : ℕ) (cookie body : List ℕ) → Ends (parse_body n cookie body)
unfolding parse_body
parse_body-Ends n cookie body =
    if-cases Ends (ltb (length body) n) _ _ (λ e f. cc)
      (λ e. parse_attributes-Ends (suc n) cookie (take n body) (omega (arith, length-take n body)))

parse_header-Ends :
    (n : ℕ) (cookie transaction_id body expected : List ℕ)
    → Ends (parse_header n cookie transaction_id body expected)
unfolding parse_header
parse_header-Ends n cookie transaction_id body expected =
    if-cases Ends (get_uint cookie == stun_magic_cookie) _ _
      (λ e.
        if-cases Ends (transaction_matches transaction_id expected) _ _
          (λ f. parse_body-Ends n cookie body) (λ f g. cc))
      (λ e f. cc)

-- For every message and every expected transaction, the loop of the parser ends within the rounds that
-- it is given, one more than the message's length field says: the result is an address or an error of
-- the program, never that the rounds ran out.
pub parse_stun_response-ne-no_fuel :
    (bytes expected : List ℕ) → parse_stun_response bytes expected ≢ err no_fuel
unfolding parse_stun_response
parse_stun_response-ne-no_fuel bytes expected =
    if-cases Ends (ltb (length bytes) 20) _ _ (λ e f. cc)
      (λ e.
        if-cases Ends (get_uint (take 2 bytes) == stun_binding_response) _ _
          (λ f.
            parse_header-Ends (get_uint (take 2 (drop 2 bytes))) (take 4 (drop 4 bytes))
              (take 12 (drop 8 bytes)) (drop 20 bytes) expected)
          (λ f.
            if-cases Ends (get_uint (take 2 bytes) == stun_binding_error) _ _ (λ g k. cc)
              (λ g k. cc)))
