-- ===== src/Nat/Punch/Link.antt =====
-- Two peers that punch at one another. The network may lose, repeat and reorder packets: at any time
-- it may deliver any packet that the other side has sent.
pub mod Sessions
use p2p_file_sync.Prelude.{ℕ, ◌≡◌, Bool, true, false, Option, none, some, List, [], ◌∷◌}
use p2p_file_sync.Bytes.{Any}
use p2p_file_sync.Nat.Punch.{
  hole_punch_syn, punch_packet, Reaction, skipped, replied, succeeded, listen_packet,
}

-- One call of attemptHolePunch with its listener: the session that it drew, the packets that it has
-- sent, whether listenForPunch still runs, and whether it has written to successCh.
pub record Peer : Type 0 where
  pub session_id : List ℕ
  pub sent : List (List ℕ)
  pub listening : Bool
  pub reported : Bool

abbrev pub new_peer : List ℕ → Peer
new_peer session_id = record {
  session_id = session_id;
  sent = [];
  listening = true;
  reported = false;
}

-- sendPunchPacket
unfoldable pub send : ℕ → Peer → Peer
send msg_type p = record p { sent = punch_packet msg_type p.session_id ∷ p.sent }

-- The reaction of the listener, on the state.
unfoldable pub apply_reaction : Reaction → Peer → Peer
unfolding send
apply_reaction skipped p = p
apply_reaction (replied t) p = send t p
apply_reaction (succeeded none) p = record p { listening = false; reported = true }
apply_reaction (succeeded (some t)) p = record (send t p) { listening = false; reported = true }

unfoldable pub receive : List ℕ → Peer → Peer
receive datagram p = apply_reaction (listen_packet p.session_id datagram) p

pub record Pair : Type 0 where
  pub left : Peer
  pub right : Peer

-- A tick of either peer's ticker, or the delivery of a packet to a peer that listens.
pub data Step (s t : Pair) : Type 0 where
  tick_left : t ≡ record s { left = send hole_punch_syn s.left } → Step s t
  tick_right : t ≡ record s { right = send hole_punch_syn s.right } → Step s t
  deliver_left :
      (datagram : List ℕ)
      → Any (λ (x : List ℕ). x ≡ datagram) s.right.sent
      → s.left.listening ≡ true
      → t ≡ record s { left = receive datagram s.left }
      → Step s t
  deliver_right :
      (datagram : List ℕ)
      → Any (λ (x : List ℕ). x ≡ datagram) s.left.sent
      → s.right.listening ≡ true
      → t ≡ record s { right = receive datagram s.right }
      → Step s t

pub data Reach (s : Pair) : Pair → Type 0 where
  here : Reach s s
  next : {t u : Pair} → Reach s t → Step t u → Reach s u
