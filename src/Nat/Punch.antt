-- ===== src/Nat/Punch.antt =====
-- internal/nat/holepunch.go: the packets, the listener, and the sending loop. A UDP address is a
-- number. Time is the order of the events: ticks of the ticker, results of the listener, and the
-- end of the context.
pub mod Listen
pub mod Attempts
pub mod Link
mod Tests
use p2p_file_sync.Prelude.{
  ℕ, zero, suc, ◌+◌, ◌-◌, Bool, true, false, Option, none, some, List, [], ◌∷◌, ◌++◌, ltb, ◌==◌,
  if◌then◌else◌, length, take, drop, replicate, map,
}
use p2p_file_sync.Bytes.{put_u32, get_uint, bytes_equal}

abbrev pub hole_punch_syn : ℕ
hole_punch_syn = 0x01

abbrev pub hole_punch_syn_ack : ℕ
hole_punch_syn_ack = 0x02

abbrev pub hole_punch_ack : ℕ
hole_punch_ack = 0x03

abbrev pub max_punch_attempts : ℕ
max_punch_attempts = 5

abbrev pub punch_magic : ℕ
punch_magic = 0x50554E43

-- The packet of sendPunchPacket: 13 bytes, with the session copied into the last eight.
unfoldable pub punch_packet : ℕ → List ℕ → List ℕ
punch_packet msg_type session_id =
    msg_type ∷ (put_u32 punch_magic ++ take 8 (session_id ++ replicate 8 0))

-- What the listener does with a datagram: nothing, a reply, or the end of the loop with the sender's
-- address on successCh, perhaps after a reply.
pub data Reaction : Type 0 where
  skipped : Reaction
  replied : ℕ → Reaction
  succeeded : Option ℕ → Reaction

-- The switch on the message type.
unfoldable pub react : ℕ → Reaction
react msg_type =
    if msg_type == hole_punch_syn
    then replied hole_punch_syn_ack
    else if msg_type == hole_punch_syn_ack
    then succeeded (some hole_punch_ack)
    else if msg_type == hole_punch_ack
    then succeeded none
    else skipped

-- The checks of the magic number and of the session.
unfoldable pub check_packet : List ℕ → ℕ → List ℕ → Reaction
unfolding react
check_packet expected_session_id msg_type rest =
    if get_uint (take 4 rest) == punch_magic
    then if bytes_equal (take 8 (drop 4 rest)) expected_session_id then react msg_type else skipped
    else skipped

-- One round of listenForPunch, for a datagram that ReadFromUDP has cut to the buffer.
unfoldable pub parse_packet : List ℕ → List ℕ → Reaction
unfolding check_packet
parse_packet expected_session_id [] = skipped
parse_packet expected_session_id (msg_type ∷ rest) =
    if ltb (length (msg_type ∷ rest)) 13
    then skipped
    else check_packet expected_session_id msg_type rest

unfoldable pub listen_packet : List ℕ → List ℕ → Reaction
unfolding parse_packet
listen_packet expected_session_id datagram = parse_packet expected_session_id (take 64 datagram)

-- HolePunchResult, and the packets that the loop has sent, the last one first.
pub record Attempt : Type 0 where
  pub attempts : ℕ
  pub success : Bool
  pub remote_addr : Option ℕ
  pub sent : List (ℕ × List ℕ)

-- The cases of the select.
pub data Event : Type 0 where
  ctx_done : Event
  success_from : ℕ → Event
  listen_error : Event
  tick : Event

-- The loop still waits, or has returned.
pub data Progress : Type 0 where
  waiting : Attempt → Progress
  returned : Attempt → Progress

-- `for _, target := range targets { hp.sendPunchPacket(...) }`
unfoldable pub send_all : List ℕ → List ℕ → List (ℕ × List ℕ) → List (ℕ × List ℕ)
send_all session_id [] sent = sent
send_all session_id (target ∷ targets) sent =
    send_all session_id targets ((target, punch_packet hole_punch_syn session_id) ∷ sent)

-- The body of the loop of attemptHolePunch.
unfoldable pub on_event : List ℕ → List ℕ → Event → Attempt → Progress
unfolding send_all
on_event targets session_id ctx_done r = returned (record r { success = false })
on_event targets session_id (success_from addr) r =
    returned (record r { success = true; remote_addr = some addr })
on_event targets session_id listen_error r = waiting r
on_event targets session_id tick r =
    waiting (record r { attempts = r.attempts + 1; sent = send_all session_id targets r.sent })

-- The loop goes on where it has not returned.
unfoldable pub go_on : (Attempt → Progress) → Progress → Progress
go_on continue (waiting r) = continue r
go_on continue (returned r) = returned r

-- attemptHolePunch, against the events that the select takes in turn. The test of the loop comes
-- before each of them; ScheduleAndPunch has the same loop with another bound.
unfoldable pub punch_loop : ℕ → List ℕ → List ℕ → List Event → Attempt → Progress
punch_loop bound targets session_id [] r =
    if ltb r.attempts bound then waiting r else returned (record r { success = false })
punch_loop bound targets session_id (e ∷ events) r =
    let more =
      go_on (punch_loop bound targets session_id events) (on_event targets session_id e r) in
    if ltb r.attempts bound then more else returned (record r { success = false })
