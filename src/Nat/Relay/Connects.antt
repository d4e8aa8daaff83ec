-- ===== src/Nat/Relay/Connects.antt =====
-- The requests and the acknowledgements of the relay are read back.
use p2p_file_sync.Prelude.{ℕ, ◌≤◌, ◌≡◌, refl, ap, ◌∙◌, List, ◌∷◌, ◌++◌, arith, length, ok}
use p2p_file_sync.Bytes.{put_u32, get_uint-put_u32}
use p2p_file_sync.Stream.{of_list, read_full}
use p2p_file_sync.Nat.Frames.{frame, reading_header, reading_body, all_or}
use p2p_file_sync.Nat.Frames.Reads.{at_least, all_or-read_full}
use p2p_file_sync.Nat.Relay.{
  relay_msg_connect, relay_msg_connect_ack, session, request_of, read_session, check_request,
  read_request, connect_message, read_ack, check_ack, connect_answer,
}

-- The server reads the session ID of a client, of at most 256 bytes; and the client reads it in the
-- server's acknowledgement, with anything that the relay sends behind it.
pub read_request-connect_message :
    (id rest : List ℕ)
    → length id ≤ 256
    → (read_request (of_list (connect_message id ++ rest)) ≡ session id)
      × (connect_answer (of_list (frame relay_msg_connect_ack id ++ rest)) ≡ ok id)
unfolding read_request check_request read_session request_of connect_message frame connect_answer
    check_ack read_ack
read_request-connect_message id rest h =
    let length_back = get_uint-put_u32 (length id) (omega arith) in
    (
      ap check_request (
            all_or-read_full reading_header 5 (relay_msg_connect ∷ put_u32 (length id)) (id ++ rest)
              refl)
          ∙ ap (λ (n : ℕ). read_session n (of_list (id ++ rest))) length_back
          ∙ rw (at_least 256 (length id) h)
              (ap request_of (all_or-read_full reading_body (length id) id rest refl)),
      ap check_ack (
            all_or-read_full reading_header 5 (relay_msg_connect_ack ∷ put_u32 (length id))
              (id ++ rest) refl)
          ∙ ap (λ (n : ℕ). read_ack (all_or reading_body (read_full n (of_list (id ++ rest)))))
              length_back
          ∙ ap read_ack (all_or-read_full reading_body (length id) id rest refl),
    )
