-- ===== src/Nat/Relay/Fallback/Tests.antt =====
-- A peer that is registered, and none.
use p2p_file_sync.Prelude.{ℕ, true, false, Option, List, [], ◌∷◌}
use p2p_file_sync.Bytes.{text_bytes}
use p2p_file_sync.Nat.Signaling.{Peers, lookup_peer}
use p2p_file_sync.Nat.Signaling.Register.{registered}
use p2p_file_sync.Nat.Relay.Fallback.{Punched, hole_puncher_connect}

abbrev alice : List ℕ
alice = text_bytes "alice"

abbrev bob : List ℕ
bob = text_bytes "bob"

abbrev public_addr : List ℕ
public_addr = text_bytes "203.0.113.7:40000"

abbrev local_addr : List ℕ
local_addr = text_bytes "10.0.0.2:40000"

abbrev peers : Peers
peers = (alice, registered 3 alice public_addr local_addr) ∷ []

abbrev relay_addr : List ℕ
relay_addr = text_bytes "198.51.100.1:3478"

abbrev failed_attempt : Punched
failed_attempt = record { success = false; attempts = 5 }

abbrev relay_conn : ℕ
relay_conn = 80

abbrev punched_with : List ℕ → Option Punched
punched_with peer_id =
    hole_puncher_connect (λ addr. true) failed_attempt (lookup_peer 9 peers peer_id)
