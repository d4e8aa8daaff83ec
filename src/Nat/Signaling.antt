-- ===== src/Nat/Signaling.antt =====
-- internal/nat/signaling.go: the server's table of peers with its handlers, and the client. A
-- connection is what the client writes to it and what the server answers; time is a number.
pub mod Register
pub mod Servable
pub mod Lookup
mod Tests
use p2p_file_sync.Prelude.{
  ℕ, ◌+◌, ◌*◌, Bool, true, false, Option, none, some, List, [], ◌∷◌, ◌++◌, ltb, ◌==◌, if◌then◌else◌,
  length, Outcome, ok, err, ◌>>=◌,
}
use p2p_file_sync.Bytes.{bytes_equal, text_bytes}
use p2p_file_sync.Stream.{Stream, of_list, eof}
use p2p_file_sync.Assoc.{find, store}
use p2p_file_sync.Nat.Frames.{frame, put_string, get_string, FrameError, too_large, read_frame}

abbrev pub msg_type_register : ℕ
msg_type_register = 0x01

abbrev pub msg_type_register_ack : ℕ
msg_type_register_ack = 0x02

abbrev pub msg_type_peer_request : ℕ
msg_type_peer_request = 0x03

abbrev pub msg_type_peer_response : ℕ
msg_type_peer_response = 0x04

abbrev pub msg_type_error : ℕ
msg_type_error = 0xFF

-- The bound on the body, "message too large".
abbrev pub max_body : ℕ
max_body = 1024

-- PeerInfo
pub record PeerInfo : Type 0 where
  pub id : List ℕ
  pub public_addr : List ℕ
  pub local_addr : List ℕ
  pub last_seen : ℕ

-- SignalingServer.peers
abbrev pub Peers : Type 0
Peers = List (List ℕ × PeerInfo)

-- sendError, sendRegisterAck and sendPeerResponse.
unfoldable pub send_error : List ℕ → List ℕ
send_error text = frame msg_type_error text

unfoldable pub send_register_ack : List ℕ → List ℕ
send_register_ack peer_id = frame msg_type_register_ack peer_id

unfoldable pub send_peer_response : PeerInfo → List ℕ
send_peer_response peer =
    frame msg_type_peer_response (put_string peer.public_addr ++ put_string peer.local_addr)

-- handleRegister, from each of its strings on.
unfoldable pub register_local :
    ℕ → Peers → List ℕ → List ℕ → Option (List ℕ × List ℕ) → Peers × List ℕ
register_local now peers peer_id public_addr none =
    (peers, send_error (text_bytes "invalid local address"))
register_local now peers peer_id public_addr (some (local_addr, rest)) = (
  store peer_id
      (record { id = peer_id; public_addr = public_addr; local_addr = local_addr; last_seen = now })
      peers,
  send_register_ack peer_id,
)

unfoldable pub register_public : ℕ → Peers → List ℕ → Option (List ℕ × List ℕ) → Peers × List ℕ
unfolding register_local
register_public now peers peer_id none = (peers, send_error (text_bytes "invalid public address"))
register_public now peers peer_id (some (public_addr, rest)) =
    register_local now peers peer_id public_addr (get_string rest)

unfoldable pub register_id : ℕ → Peers → Option (List ℕ × List ℕ) → Peers × List ℕ
unfolding register_public
register_id now peers none = (peers, send_error (text_bytes "invalid peer ID"))
register_id now peers (some (peer_id, rest)) = register_public now peers peer_id (get_string rest)

unfoldable pub handle_register : ℕ → Peers → List ℕ → Peers × List ℕ
unfolding register_id
handle_register now peers body =
    if ltb (length body) 6
    then (peers, send_error (text_bytes "invalid register message"))
    else register_id now peers (get_string body)

-- handlePeerRequest
unfoldable pub respond : Option PeerInfo → List ℕ
unfolding send_peer_response
respond none = send_error (text_bytes "peer not found")
respond (some peer) = send_peer_response peer

unfoldable pub request_id : Peers → Option (List ℕ × List ℕ) → List ℕ
unfolding respond
request_id peers none = send_error (text_bytes "invalid peer ID")
request_id peers (some (peer_id, rest)) = respond (find peer_id peers)

unfoldable pub handle_peer_request : Peers → List ℕ → List ℕ
unfolding request_id
handle_peer_request peers body =
    if ltb (length body) 2
    then send_error (text_bytes "invalid peer request")
    else request_id peers (get_string body)

-- The switch of handleConnection on the type of the message.
unfoldable pub dispatch : ℕ → Peers → ℕ → List ℕ → Peers × List ℕ
unfolding handle_register handle_peer_request
dispatch now peers msg_type body =
    if msg_type == msg_type_register
    then handle_register now peers body
    else if msg_type == msg_type_peer_request
    then (peers, handle_peer_request peers body)
    else (peers, send_error (text_bytes "unknown message type"))

-- A connection that breaks off gets no answer.
unfoldable pub handle_frame : ℕ → Peers → Outcome FrameError (ℕ × List ℕ) → Peers × List ℕ
unfolding dispatch
handle_frame now peers (ok (msg_type, body)) = dispatch now peers msg_type body
handle_frame now peers (err too_large) = (peers, send_error (text_bytes "message too large"))
handle_frame now peers (err FrameError.reading_header) = (peers, [])
handle_frame now peers (err FrameError.reading_body) = (peers, [])

-- handleConnection: the table afterwards, and the answer.
unfoldable pub handle_connection : ℕ → Peers → Stream → Peers × List ℕ
unfolding handle_frame
handle_connection now peers conn = handle_frame now peers (read_frame max_body conn)

-- One tick of cleanupExpiredPeers.
unfoldable pub cleanup : ℕ → ℕ → Peers → Peers
cleanup expiry now [] = []
cleanup expiry now ((id, peer) ∷ peers) =
    let rest = cleanup expiry now peers in
    if ltb (peer.last_seen + expiry) now then rest else (id, peer) ∷ rest

pub data ClientError : Type 0 where
  reading_response : FrameError → ClientError
  registration_error lookup_error : List ℕ → ClientError
  unexpected_response : ℕ → ClientError
  peer_not_found invalid_response invalid_public_address invalid_local_address : ClientError

-- SignalingClient.readResponse
unfoldable pub read_response : List ℕ → Outcome ClientError (ℕ × List ℕ)
read_response answer = elim (read_frame max_body (of_list answer)) [
  | ok message ↦ ok message
  | err e ↦ err (reading_response e)
]

-- The message of Register, and its treatment of the response.
unfoldable pub register_message : List ℕ → List ℕ → List ℕ → List ℕ
register_message peer_id public_addr local_addr =
    frame msg_type_register
      (put_string peer_id ++ (put_string public_addr ++ put_string local_addr))

unfoldable pub check_registered : ℕ × List ℕ → Outcome ClientError (Unit {0})
check_registered (msg_type, body) =
    if msg_type == msg_type_error
    then err (registration_error body)
    else if msg_type == msg_type_register_ack
    then ok tt
    else err (unexpected_response msg_type)

-- SignalingClient.Register, on a connection that does not fail.
unfoldable pub register :
    ℕ → Peers → List ℕ → List ℕ → List ℕ → Peers × Outcome ClientError (Unit {0})
unfolding check_registered
register now peers peer_id public_addr local_addr =
    let (peers', answer) =
      handle_connection now peers (of_list (register_message peer_id public_addr local_addr)) in
    (peers', read_response answer >>= check_registered)

-- parsePeerResponse: the two addresses.
unfoldable pub parse_local :
    List ℕ → Option (List ℕ × List ℕ) → Outcome ClientError (List ℕ × List ℕ)
parse_local public_addr none = err invalid_local_address
parse_local public_addr (some (local_addr, rest)) = ok (public_addr, local_addr)

unfoldable pub parse_public : Option (List ℕ × List ℕ) → Outcome ClientError (List ℕ × List ℕ)
unfolding parse_local
parse_public none = err invalid_public_address
parse_public (some (public_addr, rest)) = parse_local public_addr (get_string rest)

unfoldable pub parse_peer_response : List ℕ → Outcome ClientError (List ℕ × List ℕ)
unfolding parse_public
parse_peer_response body =
    if ltb (length body) 4 then err invalid_response else parse_public (get_string body)

-- The message of LookupPeer, and its treatment of the response.
unfoldable pub peer_request_message : List ℕ → List ℕ
peer_request_message peer_id = frame msg_type_peer_request (put_string peer_id)

unfoldable pub check_found : ℕ × List ℕ → Outcome ClientError (List ℕ × List ℕ)
unfolding parse_peer_response
check_found (msg_type, body) =
    if msg_type == msg_type_error
    then if bytes_equal body (text_bytes "peer not found")
      then err peer_not_found
      else err (lookup_error body)
    else if msg_type == msg_type_peer_response
    then parse_peer_response body
    else err (unexpected_response msg_type)

-- SignalingClient.LookupPeer, on a connection that does not fail. It does not change the table.
unfoldable pub lookup_peer : ℕ → Peers → List ℕ → Outcome ClientError (List ℕ × List ℕ)
unfolding check_found
lookup_peer now peers peer_id =
    read_response (handle_connection now peers (of_list (peer_request_message peer_id))).1
    >>= check_found
