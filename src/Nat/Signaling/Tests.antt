-- ===== src/Nat/Signaling/Tests.antt =====
-- Two peers at the server, and the theorems at them.
use p2p_file_sync.Prelude.{ℕ, ◌≡◌, ◌≢◌, ap, get_or, List, [], ◌∷◌, arith, ok}
use p2p_file_sync.Bytes.{All, text_bytes}
use p2p_file_sync.Stream.{Stream, fault, byte}
use p2p_file_sync.Nat.Signaling.{Peers, handle_connection, cleanup, register, lookup_peer}
use p2p_file_sync.Nat.Signaling.Register.{registered}
use p2p_file_sync.Nat.Signaling.Servable.{IsServable, handle_connection-IsServable}
use p2p_file_sync.Nat.Signaling.Lookup.{lookup_peer-register}

abbrev alice : List ℕ
alice = text_bytes "alice"

abbrev bob : List ℕ
bob = text_bytes "bob"

abbrev public_addr : List ℕ
public_addr = text_bytes "203.0.113.7:40000"

abbrev local_addr : List ℕ
local_addr = text_bytes "10.0.0.2:40000"

abbrev peers : Peers
peers = (alice, registered 3 alice public_addr local_addr) ∷ []

peers-IsServable : All IsServable peers
peers-IsServable = (omega arith, tt)

alice-bob : alice ≢ bob
alice-bob e = absurd (omega (arith, ap (λ (s : List ℕ). get_or s 0 0) e))

lookup_peer-register_example :
    (lookup_peer 9 (register 7 peers bob public_addr local_addr).0 bob
      ≡ ok (public_addr, local_addr))
    × (lookup_peer 9 (register 7 peers bob public_addr local_addr).0 alice
        ≡ lookup_peer 9 peers alice)
lookup_peer-register_example =
    lookup_peer-register 7 9 peers bob public_addr local_addr alice (omega arith) (omega arith)
      alice-bob peers-IsServable

-- A registration that breaks off.
abbrev broken : Stream
broken = byte 1 (byte 0 (byte 0 (byte 0 (byte 9 (byte 0 fault)))))

handle_connection-IsServable_example :
    All IsServable (handle_connection 7 peers broken).0 × All IsServable (cleanup 300 7 peers)
handle_connection-IsServable_example =
    handle_connection-IsServable 7 300 peers broken peers-IsServable
