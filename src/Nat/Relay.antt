-- ===== src/Nat/Relay.antt =====
-- internal/nat/relay.go: the server's tables and the pairing of its connections, the client, and the
-- fallback from hole punching. A connection is a number; what the server writes to connections is a
-- log, the last message first, and so are the connections that it has closed. A handler that waits
-- for a second peer has a timer.
pub mod Connects
pub mod Pairing
pub mod Fallback
mod Tests
use p2p_file_sync.Prelude.{
  ℕ, ◌+◌, Bool, true, false, Option, none, some, List, [], ◌∷◌, ◌++◌, ltb, ◌==◌, if◌then◌else◌,
  length, take, drop, get_or, Outcome, ok, err, ◌>>=◌,
}
use p2p_file_sync.Bytes.{get_uint, text_bytes}
use p2p_file_sync.Stream.{Stream, of_list, read_full}
use p2p_file_sync.Assoc.{find, store, discard}
use p2p_file_sync.Nat.Frames.{frame, FrameError, reading_header, reading_body, all_or}

abbrev pub relay_msg_connect : ℕ
relay_msg_connect = 0x01

abbrev pub relay_msg_connect_ack : ℕ
relay_msg_connect_ack = 0x02

abbrev pub relay_msg_error : ℕ
relay_msg_error = 0xFF

-- How the reading of a connect request ends: without an answer, with an error that is sent, or with
-- the session ID.
pub data Request : Type 0 where
  broken : Request
  refused : List ℕ → Request
  session : List ℕ → Request

unfoldable pub request_of : Outcome FrameError (List ℕ × Stream) → Request
request_of (err e) = broken
request_of (ok (id, rest)) = session id

unfoldable pub read_session : ℕ → Stream → Request
unfolding request_of
read_session id_len rest =
    if ltb 256 id_len
    then refused (text_bytes "session ID too long")
    else request_of (all_or reading_body (read_full id_len rest))

unfoldable pub check_request : Outcome FrameError (List ℕ × Stream) → Request
unfolding read_session
check_request (err e) = broken
check_request (ok (header, rest)) =
    if get_or header 0 0 == relay_msg_connect
    then read_session (get_uint (drop 1 header)) rest
    else refused (text_bytes "expected connect message")

-- The start of handleConnection.
unfoldable pub read_request : Stream → Request
unfolding check_request
read_request conn = check_request (all_or reading_header (read_full 5 conn))

-- RelayServer, with the timers of its waiting handlers.
pub record Server : Type 0 where
  pub sessions : List (List ℕ × (ℕ × ℕ))
  pub waiting : List (List ℕ × ℕ)
  pub timers : List (ℕ × List ℕ)
  pub written : List (ℕ × List ℕ)
  pub closed : List ℕ

-- sendConnectAck and sendError, to a connection.
unfoldable pub write_to : ℕ → List ℕ → Server → Server
write_to conn message s = record s { written = (conn, message) ∷ s.written }

-- The two branches of handleConnection for a session ID.
unfoldable pub pair_or_wait : ℕ → List ℕ → Server → Option ℕ → Server
unfolding write_to
pair_or_wait conn id s (some first) = write_to conn (frame relay_msg_connect_ack id) (
    write_to first (frame relay_msg_connect_ack id)
      (record s { waiting = discard id s.waiting; sessions = store id (first, conn) s.sessions }))
pair_or_wait conn id s none = record s {
  waiting = store id conn s.waiting;
  timers = (conn, id) ∷ s.timers;
}

unfoldable pub pair : ℕ → List ℕ → Server → Server
pair conn id s = pair_or_wait conn id s (find id s.waiting)

-- handleConnection up to its waiting, or to the copying of bytes. `defer conn.Close()` closes a
-- connection whose request is not accepted.
unfoldable pub accept : ℕ → Server → Request → Server
unfolding write_to
accept conn s broken = record s { closed = conn ∷ s.closed }
accept conn s (refused text) =
    let told = write_to conn (frame relay_msg_error text) s in
    record told { closed = conn ∷ told.closed }
accept conn s (session id) = pair conn id s

unfoldable pub handle_connection : ℕ → Stream → Server → Server
unfolding accept
handle_connection conn bytes s = accept conn s (read_request bytes)

-- The timer of a waiting handler, `<-time.After(RelayTimeout)`, and the handler's end. The select
-- has no case for a peer that has come, so the timer of every handler that waited fires.
unfoldable pub expire : ℕ → List ℕ → Server → Server
unfolding write_to
expire conn id s =
    let told =
      write_to conn (frame relay_msg_error (text_bytes "timeout waiting for peer"))
        (record s { waiting = discard id s.waiting }) in
    record told { closed = conn ∷ told.closed }

-- The end of relay: the session is removed, and Close closes both of its connections.
unfoldable pub end_session : List ℕ → Server → Server
end_session id s = elim (find id s.sessions) [
  | none ↦ s
  | some (a, b) ↦ record s { sessions = discard id s.sessions; closed = a ∷ b ∷ s.closed }
]

-- RelayClient.Connect: the message, and its treatment of the answer.
unfoldable pub connect_message : List ℕ → List ℕ
connect_message id = frame relay_msg_connect id

pub data ConnectError : Type 0 where
  reading_response : FrameError → ConnectError
  unexpected_response : ℕ → ConnectError
  relay_error : ConnectError

-- The text of an error is read for the message only.
unfoldable pub read_ack : Outcome FrameError (List ℕ × Stream) → Outcome ConnectError (List ℕ)
read_ack (err e) = err (reading_response e)
read_ack (ok (id, rest)) = ok id

unfoldable pub check_ack : Outcome FrameError (List ℕ × Stream) → Outcome ConnectError (List ℕ)
unfolding read_ack
check_ack (err e) = err (reading_response e)
check_ack (ok (header, rest)) =
    let msg_type = get_or header 0 0 in
    if msg_type == relay_msg_error
    then err relay_error
    else if msg_type == relay_msg_connect_ack
    then read_ack (all_or reading_body (read_full (get_uint (drop 1 header)) rest))
    else err (unexpected_response msg_type)

-- The session ID of the acknowledgement.
unfoldable pub connect_answer : Stream → Outcome ConnectError (List ℕ)
unfolding check_ack
connect_answer conn = check_ack (all_or reading_header (read_full 5 conn))
