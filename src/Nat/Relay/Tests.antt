-- ===== src/Nat/Relay/Tests.antt =====
-- A server with two connections for one session, and a third.
use p2p_file_sync.Prelude.{ℕ, ◌≡◌, ◌≢◌, refl, none, some, List, [], ◌∷◌}
use p2p_file_sync.Bytes.{text_bytes}
use p2p_file_sync.Assoc.{find}
use p2p_file_sync.Nat.Frames.{frame}
use p2p_file_sync.Nat.Relay.{Server, relay_msg_connect_ack, relay_msg_error, pair, expire}
use p2p_file_sync.Nat.Relay.Pairing.{both, both_lem, expire-both}

abbrev id : List ℕ
id = text_bytes "s1"

abbrev empty : Server
empty = record { sessions = []; waiting = []; timers = []; written = []; closed = [] }

empty-waiting : find id empty.waiting ≡ none
unfolding find
empty-waiting = refl

both_lem_example :
    (find id (both 1 2 id empty).sessions ≡ some (1, 2))
    × (find id (both 1 2 id empty).waiting ≡ none)
    × ((both 1 2 id empty).written
        ≡ (2, frame relay_msg_connect_ack id) ∷ (1, frame relay_msg_connect_ack id) ∷ [])
    × ((both 1 2 id empty).closed ≡ [])
    × ((other : List ℕ)
        → id ≢ other
        → (find other (both 1 2 id empty).sessions ≡ find other empty.sessions)
          × (find other (both 1 2 id empty).waiting ≡ find other empty.waiting))
both_lem_example = both_lem 1 2 id empty empty-waiting

expire-both_example :
    ((x : List (ℕ × List ℕ)) × ((both 1 2 id empty).timers ≡ (1, id) ∷ x))
    × (find id (expire 1 id (both 1 2 id empty)).sessions ≡ some (1, 2))
    × ((expire 1 id (both 1 2 id empty)).written
        ≡ (1, frame relay_msg_error (text_bytes "timeout waiting for peer"))
          ∷ (both 1 2 id empty).written)
    × ((expire 1 id (both 1 2 id empty)).closed ≡ 1 ∷ [])
    × (find id (pair 3 id (both 1 2 id empty)).waiting ≡ some 3)
    × (find id (expire 1 id (pair 3 id (both 1 2 id empty))).waiting ≡ none)
expire-both_example = expire-both 1 2 3 id empty empty-waiting
