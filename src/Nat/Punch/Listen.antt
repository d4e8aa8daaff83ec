-- ===== src/Nat/Punch/Listen.antt =====
-- The listener's answer to the packets of sendPunchPacket.
use p2p_file_sync.Prelude.{
  ℕ, ◌≡◌, ap, ◌∙◌, false, List, ◌∷◌, ◌++◌, arith, ltb, if◌then◌else◌, length, take, take-append,
  take_all, replicate,
}
use p2p_file_sync.Bytes.{put_u32, bytes_equal}
use p2p_file_sync.Nat.Punch.{
  punch_magic, punch_packet, skipped, react, check_packet, parse_packet, listen_packet,
}

punch_packet-eight :
    (t : ℕ) (session_id : List ℕ)
    → length session_id ≡ 8
    → punch_packet t session_id ≡ t ∷ (put_u32 punch_magic ++ session_id)
unfolding punch_packet
punch_packet-eight t session_id h =
    ap (λ (x : List ℕ). t ∷ (put_u32 punch_magic ++ x)) (take-append 8 session_id (replicate 8 0) h)

long_enough : (n : ℕ) → n ≡ 13 → ltb n 13 ≡ false
long_enough n h = ground arith

-- A listener reacts to the type of a packet of its own session, and to no other packet.
pub listen_packet-punch_packet :
    (expected session_id : List ℕ) (t : ℕ)
    → length session_id ≡ 8
    → listen_packet expected (punch_packet t session_id)
      ≡ (if bytes_equal session_id expected then react t else skipped)
unfolding listen_packet parse_packet check_packet
listen_packet-punch_packet expected session_id t h =
    let packet : List ℕ = t ∷ (put_u32 punch_magic ++ session_id) in
    ap (λ (x : List ℕ). parse_packet expected (take 64 x)) (punch_packet-eight t session_id h)
    ∙ ap (parse_packet expected) (take_all 64 packet (omega arith))
    ∙ rw (long_enough (length packet) (omega arith)) (
        ap (λ (x : List ℕ). if bytes_equal x expected then react t else skipped)
          (take_all 8 session_id (omega arith)))
