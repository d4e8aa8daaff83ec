-- ===== src/Nat/Signaling/Register.antt =====
-- A registration reaches the table of the server.
use p2p_file_sync.Prelude.{
  ℕ, ◌+◌, ◌≤◌, ◌≡◌, refl, ap, sym, ◌∙◌, List, [], ◌++◌, append-nil, arith, length, length-append,
  Outcome, ok, ◌>>=◌,
}
use p2p_file_sync.Stream.{of_list}
use p2p_file_sync.Assoc.{store}
use p2p_file_sync.Nat.Frames.{frame, put_string, get_string, FrameError, read_frame}
use p2p_file_sync.Nat.Frames.Reads.{
  at_least, read_frame-frame, get_string-put_string, length-put_string,
}
use p2p_file_sync.Nat.Signaling.{
  Peers, PeerInfo, msg_type_register, msg_type_register_ack, max_body, send_register_ack,
  register_local, register_public, register_id, handle_register, dispatch, handle_frame,
  handle_connection, ClientError, read_response, register_message, check_registered, register,
}

abbrev pub registered : ℕ → List ℕ → List ℕ → List ℕ → PeerInfo
registered now peer_id public_addr local_addr = record {
  id = peer_id;
  public_addr = public_addr;
  local_addr = local_addr;
  last_seen = now;
}

abbrev register_body : List ℕ → List ℕ → List ℕ → List ℕ
register_body peer_id public_addr local_addr =
    put_string peer_id ++ (put_string public_addr ++ put_string local_addr)

-- What a message that is written and nothing more reads as.
pub read_frame-alone :
    (msg_type : ℕ) (body : List ℕ)
    → length body ≤ max_body
    → read_frame max_body (of_list (frame msg_type body)) ≡ ok (msg_type, body)
read_frame-alone msg_type body h =
    ap (λ (x : List ℕ). read_frame max_body (of_list x)) (sym (append-nil (frame msg_type body)))
    ∙ read_frame-frame max_body msg_type body [] (omega arith) h

pub read_response-frame :
    (msg_type : ℕ) (body : List ℕ)
    → length body ≤ max_body
    → read_response (frame msg_type body) ≡ ok (msg_type, body)
unfolding read_response
read_response-frame msg_type body h = rw (read_frame-alone msg_type body h, read_response) refl

length-register_body :
    (a b c : List ℕ) → length (register_body a b c) ≡ 6 + (length a + (length b + length c))
length-register_body a b c = omega (
  arith,
  length-append (put_string a) (put_string b ++ put_string c),
  length-append (put_string b) (put_string c),
  length-put_string a,
  length-put_string b,
  length-put_string c,
)

handle_register-register_body :
    (now : ℕ) (peers : Peers) (peer_id public_addr local_addr : List ℕ)
    → 6 + (length peer_id + (length public_addr + length local_addr)) ≤ max_body
    → handle_register now peers (register_body peer_id public_addr local_addr) ≡ (
      store peer_id (registered now peer_id public_addr local_addr) peers,
      send_register_ack peer_id,
    )
unfolding handle_register register_id register_public register_local
handle_register-register_body now peers a b c h =
    rw (at_least (length (register_body a b c)) 6 (omega (arith, length-register_body a b c))) (
      ap (register_id now peers)
        (get_string-put_string a (put_string b ++ put_string c) (omega arith))
      ∙ ap (register_public now peers a) (get_string-put_string b (put_string c) (omega arith))
      ∙ ap (register_local now peers a b) (
          ap get_string (sym (append-nil (put_string c)))
          ∙ get_string-put_string c [] (omega arith)))

-- The server stores a registration under its ID and acknowledges it, and Register returns no error,
-- where the three strings with their lengths fit into a body.
pub register_lem :
    (now : ℕ) (peers : Peers) (peer_id public_addr local_addr : List ℕ)
    → 6 + (length peer_id + (length public_addr + length local_addr)) ≤ max_body
    → register now peers peer_id public_addr local_addr
      ≡ (store peer_id (registered now peer_id public_addr local_addr) peers, ok tt)
unfolding register handle_connection handle_frame dispatch register_message send_register_ack
    check_registered
register_lem now peers a b c h =
    let body = register_body a b c in
    ap
      (λ (x : Outcome FrameError (ℕ × List ℕ)). (
        (handle_frame now peers x).0,
        read_response (handle_frame now peers x).1 >>= check_registered,
      ))
      (read_frame-alone msg_type_register body (omega (arith, length-register_body a b c)))
    ∙ ap (λ (x : Peers × List ℕ). (x.0, read_response x.1 >>= check_registered))
        (handle_register-register_body now peers a b c h)
    ∙ ap
        (λ (x : Outcome ClientError (ℕ × List ℕ)).
          (store a (registered now a b c) peers, x >>= check_registered))
        (read_response-frame msg_type_register_ack a (omega arith))
