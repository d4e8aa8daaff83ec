-- ===== src/Nat/Stun.antt =====
-- internal/nat/stun.go: the request, and the parser of responses. An error is named for its text.
pub mod Fuel
pub mod Responses
pub mod Checks
pub mod Detect
mod Tests
use Prim.Native.Nat.{bit_xor}
use p2p_file_sync.Prelude.{
  ℕ, zero, suc, ◌+◌, ◌-◌, ◌*◌, ◌/◌, ◌%◌, ◌^◌, Bool, true, false, ◌&&◌, Option, none, some, List, [],
  ◌∷◌, ◌++◌, ltb, ◌==◌, if◌then◌else◌, length, take, drop, replicate, get_or, Outcome, ok, err,
}
use p2p_file_sync.Bytes.{put_u16, put_u32, get_uint, bytes_equal}

abbrev pub stun_binding_request : ℕ
stun_binding_request = 0x0001

abbrev pub stun_binding_response : ℕ
stun_binding_response = 0x0101

abbrev pub stun_binding_error : ℕ
stun_binding_error = 0x0111

abbrev pub stun_attr_mapped_address : ℕ
stun_attr_mapped_address = 0x0001

abbrev pub stun_attr_xor_mapped_address : ℕ
stun_attr_xor_mapped_address = 0x0020

abbrev pub stun_magic_cookie : ℕ
stun_magic_cookie = 0x2112A442

-- MappedAddress; the address is its 4 or 16 bytes.
pub record MappedAddress : Type 0 where
  pub ip : List ℕ
  pub port : ℕ

-- `no_fuel` is no error of the program: the rounds of the model's loop ran out.
pub data StunError : Type 0 where
  no_fuel : StunError
  invalid_response binding_error transaction_mismatch no_mapped_address : StunError
  unexpected_type invalid_cookie unknown_family : ℕ → StunError
  address_too_short ipv6_too_short ipv6_not_supported : StunError

-- buildStunRequest: 20 bytes, with the transaction copied into the last twelve.
unfoldable pub build_stun_request : List ℕ → List ℕ
build_stun_request transaction_id =
    put_u16 stun_binding_request
    ++ (put_u16 0 ++ (put_u32 stun_magic_cookie ++ take 12 (transaction_id ++ replicate 12 0)))

-- parseXorMappedAddress. The first two bytes of the cookie come from the message.
unfoldable pub parse_xor_mapped_address : List ℕ → List ℕ → Outcome StunError MappedAddress
parse_xor_mapped_address bytes magic_cookie =
    let family = get_or bytes 1 0 in
    let port =
      bit_xor (get_uint (take 2 (drop 2 bytes))) (get_uint magic_cookie / 2 ^ 16 % 2 ^ 16) in
    if ltb (length bytes) 8
    then err address_too_short
    else if family == 0x01
    then ok (record {
      ip = put_u32 (bit_xor (get_uint (take 4 (drop 4 bytes))) stun_magic_cookie);
      port = port;
    })
    else if family == 0x02
    then if ltb (length bytes) 20 then err ipv6_too_short else err ipv6_not_supported
    else err (unknown_family family)

-- parseMappedAddress
unfoldable pub parse_mapped_address : List ℕ → Outcome StunError MappedAddress
parse_mapped_address bytes =
    let family = get_or bytes 1 0 in
    let port = get_uint (take 2 (drop 2 bytes)) in
    if ltb (length bytes) 8
    then err address_too_short
    else if family == 0x01
    then ok (record { ip = take 4 (drop 4 bytes); port = port })
    else if family == 0x02
    then if ltb (length bytes) 20
      then err ipv6_too_short
      else ok (record { ip = take 16 (drop 4 bytes); port = port })
    else err (unknown_family family)

-- `attrLen%4 != 0`, and what to skip then.
unfoldable pub padding : ℕ → ℕ
padding attr_len = if attr_len % 4 == 0 then 0 else 4 - attr_len % 4

-- The switch on the type of an attribute; `continue` is the rest of the loop.
unfoldable pub parse_attribute :
    List ℕ → ℕ → List ℕ → Outcome StunError MappedAddress → Outcome StunError MappedAddress
parse_attribute cookie attr_type value continue =
    if attr_type == stun_attr_xor_mapped_address
    then parse_xor_mapped_address value cookie
    else if attr_type == stun_attr_mapped_address
    then parse_mapped_address value
    else continue

-- A round of the loop behind the attribute's type and length, with the next rounds as `continue`.
unfoldable pub parse_value :
    (List ℕ → Outcome StunError MappedAddress)
    → List ℕ
    → ℕ
    → ℕ
    → List ℕ
    → Outcome StunError MappedAddress
unfolding parse_attribute padding
parse_value continue cookie attr_type attr_len after =
    if ltb (length after) attr_len
    then err no_mapped_address
    else parse_attribute cookie attr_type (take attr_len after)
        (continue (drop (attr_len + padding attr_len) after))

-- The loop over the attributes, with the bytes up to `end` that are left. A round takes four bytes
-- at least, so as many rounds as bytes are enough.
unfoldable pub parse_attributes : ℕ → List ℕ → List ℕ → Outcome StunError MappedAddress
unfolding parse_value
parse_attributes zero cookie rest = err no_fuel
parse_attributes (suc fuel) cookie rest =
    if ltb (length rest) 4
    then err no_mapped_address
    else parse_value (parse_attributes fuel cookie) cookie (get_uint (take 2 rest))
        (get_uint (take 2 (drop 2 rest))) (drop 4 rest)

-- `len(expectedTxID) == 12` and the loop under it.
unfoldable pub transaction_matches : List ℕ → List ℕ → Bool
transaction_matches received expected =
    if length expected == 12 then bytes_equal received expected else true

-- parseStunResponse behind the checks of the header.
unfoldable pub parse_body : ℕ → List ℕ → List ℕ → Outcome StunError MappedAddress
parse_body msg_len cookie body =
    if ltb (length body) msg_len
    then err invalid_response
    else parse_attributes (suc msg_len) cookie (take msg_len body)

-- The checks of the cookie and of the transaction.
unfoldable pub parse_header :
    ℕ → List ℕ → List ℕ → List ℕ → List ℕ → Outcome StunError MappedAddress
unfolding parse_body transaction_matches
parse_header msg_len cookie transaction_id body expected =
    if get_uint cookie == stun_magic_cookie
    then if transaction_matches transaction_id expected
      then parse_body msg_len cookie body
      else err transaction_mismatch
    else err (invalid_cookie (get_uint cookie))

-- parseStunResponse
unfoldable pub parse_stun_response : List ℕ → List ℕ → Outcome StunError MappedAddress
unfolding parse_header
parse_stun_response bytes expected =
    let msg_type = get_uint (take 2 bytes) in
    if ltb (length bytes) 20
    then err invalid_response
    else if msg_type == stun_binding_response
    then parse_header (get_uint (take 2 (drop 2 bytes))) (take 4 (drop 4 bytes))
        (take 12 (drop 8 bytes)) (drop 20 bytes) expected
    else if msg_type == stun_binding_error
    then err binding_error
    else err (unexpected_type msg_type)

-- queryServer. `received` is what ReadFromUDP gives for the request with this transaction, or the error
-- of the first call that fails; a longer datagram is cut to the 576 bytes of the buffer.
pub data QueryError : Type 0 where
  resolving_server generating_transaction setting_deadline sending_request : QueryError
  timed_out reading_response resetting_deadline : QueryError
  parsing : StunError → QueryError

unfoldable pub parsed : Outcome StunError MappedAddress → Outcome QueryError MappedAddress
parsed (err e) = err (parsing e)
parsed (ok a) = ok a

unfoldable pub query_server :
    List ℕ → Outcome QueryError (List ℕ) → Outcome QueryError MappedAddress
unfolding parsed parse_stun_response
query_server transaction (err e) = err e
query_server transaction (ok received) =
    parsed (parse_stun_response (take 576 received) transaction)

-- StunClient.Discover, from the error of the servers before: the first server that answers decides.
-- `query` is queryServer of a server.
pub data DiscoverError : Type 0 where
  no_servers need_two_servers creating_socket : DiscoverError
  all_failed second_failed : QueryError → DiscoverError

unfoldable pub or_else :
    Outcome QueryError MappedAddress
    → (QueryError → Outcome DiscoverError MappedAddress)
    → Outcome DiscoverError MappedAddress
or_else (ok a) more = ok a
or_else (err e) more = more e

module _ {Server : Type 0} (query : Server → Outcome QueryError MappedAddress) where
  unfoldable pub discover : DiscoverError → List Server → Outcome DiscoverError MappedAddress
  unfolding or_else
  discover last [] = err last
  discover last (server ∷ servers) = or_else (query server) (λ e. discover (all_failed e) servers)

  -- DiscoverWithNewConn: `socket_fails` tells whether net.ListenUDP returns an error.
  unfoldable pub discover_with_new_conn : Bool → List Server → Outcome DiscoverError MappedAddress
  unfolding discover
  discover_with_new_conn true servers = err creating_socket
  discover_with_new_conn false servers = discover no_servers servers

  -- DetectNATType: whether the translator is taken for a cone. `ip_equal` is net.IP.Equal.
  unfoldable pub same_mapping :
      (List ℕ → List ℕ → Bool)
      → MappedAddress
      → Outcome QueryError MappedAddress
      → Outcome DiscoverError Bool
  same_mapping ip_equal first (err e) = err (second_failed e)
  same_mapping ip_equal first (ok second) =
      ok (ip_equal first.ip second.ip && (first.port == second.port))

  unfoldable pub compare_second :
      (List ℕ → List ℕ → Bool)
      → Server
      → Outcome DiscoverError MappedAddress
      → Outcome DiscoverError Bool
  unfolding same_mapping
  compare_second ip_equal second (err e) = err e
  compare_second ip_equal second (ok a) = same_mapping ip_equal a (query second)

  unfoldable pub detect_nat_type :
      (List ℕ → List ℕ → Bool) → Bool → List Server → Outcome DiscoverError Bool
  unfolding compare_second discover_with_new_conn
  detect_nat_type ip_equal socket_fails [] = err need_two_servers
  detect_nat_type ip_equal socket_fails (server ∷ []) = err need_two_servers
  detect_nat_type ip_equal socket_fails (first ∷ second ∷ servers) =
      compare_second ip_equal second
        (discover_with_new_conn socket_fails (first ∷ second ∷ servers))
