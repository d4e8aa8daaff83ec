-- ===== src/Nat/Stun/Tests.antt =====
-- A response with an unknown attribute before the address, and the theorems at it.
use p2p_file_sync.Prelude.{
  ℕ, zero, suc, ◌≡◌, ◌≢◌, refl, ap, false, true, ltb, length, take, drop, List, [], ◌∷◌, arith,
  Outcome, ok, err,
}
use p2p_file_sync.Bytes.{get_uint, bytes_equal, bytes_equal_refl}
use p2p_file_sync.Nat.Stun.{
  MappedAddress, no_fuel, padding, parse_attributes, stun_binding_response, stun_magic_cookie,
  parse_stun_response, parse_header, parse_body, parse_value, parse_attribute, transaction_matches,
  parse_xor_mapped_address, QueryError, timed_out, parsed, query_server, detect_nat_type,
}
use p2p_file_sync.Nat.Stun.Fuel.{parse_stun_response-ne-no_fuel}
use p2p_file_sync.Nat.Stun.Responses.{
  attribute, foreign, xor_value, response, parse_stun_response-response,
}
use p2p_file_sync.Nat.Stun.Checks.{parse_stun_response-ok}
use p2p_file_sync.Nat.Stun.Detect.{detect_nat_type-fallback}

abbrev transaction : List ℕ
transaction = 1 ∷ 2 ∷ 3 ∷ 4 ∷ 5 ∷ 6 ∷ 7 ∷ 8 ∷ 9 ∷ 10 ∷ 11 ∷ 12 ∷ []

abbrev address : MappedAddress
address = record { ip = 203 ∷ 0 ∷ 113 ∷ 7 ∷ []; port = 40000 }

abbrev attributes : List ℕ
attributes =
    foreign ((0x8022, 65 ∷ 66 ∷ 67 ∷ []) ∷ [])
      (attribute 0x0020 (xor_value address.ip address.port) [])

parse_run : parse_stun_response (response transaction attributes) transaction ≡ ok address
unfolding parse_stun_response parse_header parse_body parse_attributes parse_value parse_attribute
    padding transaction_matches parse_xor_mapped_address bytes_equal
parse_run = refl

parse_stun_response-ne-no_fuel_example :
    parse_stun_response (response transaction attributes) transaction ≢ err no_fuel
parse_stun_response-ne-no_fuel_example =
    parse_stun_response-ne-no_fuel (response transaction attributes) transaction

parse_stun_response-response_example :
    parse_stun_response (response transaction attributes) transaction ≡ ok address
unfolding padding
parse_stun_response-response_example =
    parse_stun_response-response transaction ((0x8022, 65 ∷ 66 ∷ 67 ∷ []) ∷ []) address.ip
      address.port [] refl
      ((
        (
          omega arith,
          (λ e. absurd (omega (arith, e))),
          (λ e. absurd (omega (arith, e))),
          omega arith,
        ),
        tt,
      ))
      refl ((omega arith, (omega arith, (omega arith, (omega arith, tt))))) (omega arith)
      (omega arith)

parse_stun_response-ok_example :
    (ltb (length (response transaction attributes)) 20 ≡ false)
    × (get_uint (take 2 (response transaction attributes)) ≡ stun_binding_response)
    × (get_uint (take 4 (drop 4 (response transaction attributes))) ≡ stun_magic_cookie)
    × (take 12 (drop 8 (response transaction attributes)) ≡ transaction)
parse_stun_response-ok_example =
    parse_stun_response-ok (response transaction attributes) transaction address refl parse_run

-- Server 0 does not answer, the others do.
abbrev query : ℕ → Outcome QueryError MappedAddress
query zero = query_server transaction (err timed_out)
query (suc n) = query_server transaction (ok (response transaction attributes))

query_run : query 1 ≡ ok address
unfolding query_server parsed
query_run = ap parsed parse_run

query_timed_out : query 0 ≡ err timed_out
unfolding query_server
query_timed_out = refl

detect_nat_type-fallback_example :
    detect_nat_type query bytes_equal false (0 ∷ 1 ∷ 2 ∷ []) ≡ ok true
detect_nat_type-fallback_example =
    detect_nat_type-fallback query bytes_equal 0 1 (2 ∷ []) timed_out address bytes_equal_refl
      query_timed_out query_run
