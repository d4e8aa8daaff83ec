-- ===== src/Nat/Signaling/Lookup.antt =====
-- What LookupPeer finds of the registrations.
use p2p_file_sync.Prelude.{
  ℕ, ◌+◌, ◌≤◌, ◌≡◌, ◌≢◌, refl, ap, sym, ◌∙◌, Option, none, some, List, [], ◌++◌, append-nil, arith,
  length, length-append, Outcome, ok, err, ◌>>=◌,
}
use p2p_file_sync.Bytes.{All, text_bytes, bytes_equal}
use p2p_file_sync.Assoc.{find, store, find-store_self, find-store_other, find-All, store-All}
use p2p_file_sync.Nat.Frames.{put_string, get_string, FrameError}
use p2p_file_sync.Nat.Frames.Reads.{at_least, get_string-put_string, length-put_string}
use p2p_file_sync.Nat.Signaling.{
  Peers, PeerInfo, msg_type_peer_request, msg_type_peer_response, msg_type_error, max_body,
  send_error, send_peer_response, respond, request_id, handle_peer_request, dispatch, handle_frame,
  handle_connection, ClientError, peer_not_found, read_response, parse_local, parse_public,
  parse_peer_response, peer_request_message, check_found, lookup_peer, register,
}
use p2p_file_sync.Nat.Signaling.Register.{
  registered, read_frame-alone, read_response-frame, register_lem,
}
use p2p_file_sync.Nat.Signaling.Servable.{IsServable}

-- The addresses of an entry, or the error of LookupPeer for a peer that is not there.
abbrev pub answer : Option PeerInfo → Outcome ClientError (List ℕ × List ℕ)
answer none = err peer_not_found
answer (some p) = ok (p.public_addr, p.local_addr)

handle_peer_request-put_string :
    (peers : Peers) (peer_id : List ℕ)
    → 2 + length peer_id ≤ max_body
    → handle_peer_request peers (put_string peer_id) ≡ respond (find peer_id peers)
unfolding handle_peer_request request_id
handle_peer_request-put_string peers peer_id h =
    rw (at_least (length (put_string peer_id)) 2 (omega (arith, length-put_string peer_id))) (
      ap (request_id peers) (
        ap get_string (sym (append-nil (put_string peer_id)))
        ∙ get_string-put_string peer_id [] (omega arith)))

parse_peer_response-strings :
    (a b : List ℕ)
    → 4 + (length a + length b) ≤ max_body
    → parse_peer_response (put_string a ++ put_string b) ≡ ok (a, b)
unfolding parse_peer_response parse_public parse_local
parse_peer_response-strings a b h =
    rw
      (at_least (length (put_string a ++ put_string b)) 4 (
        omega (
          arith,
          length-append (put_string a) (put_string b),
          length-put_string a,
          length-put_string b,
        )))
      (ap parse_public (get_string-put_string a (put_string b) (omega arith))
        ∙ ap (parse_local a) (
            ap get_string (sym (append-nil (put_string b)))
            ∙ get_string-put_string b [] (omega arith)))

-- The client reads the server's answer for an entry.
check_found-respond :
    (o : Option PeerInfo)
    → ((p : PeerInfo) → o ≡ some p → IsServable ([], p))
    → (read_response (respond o) >>= check_found) ≡ answer o
unfolding respond send_error send_peer_response check_found
check_found-respond none h =
    ap (λ (x : Outcome ClientError (ℕ × List ℕ)). x >>= check_found)
      (read_response-frame msg_type_error (text_bytes "peer not found") (omega arith))
    ∙ not_found
  where
    not_found : check_found (msg_type_error, text_bytes "peer not found") ≡ err peer_not_found
    not_found = unfold bytes_equal in refl
check_found-respond (some p) h =
    let fits = h p refl in
    ap (λ (x : Outcome ClientError (ℕ × List ℕ)). x >>= check_found)
      (read_response-frame msg_type_peer_response
        (put_string p.public_addr ++ put_string p.local_addr)
        (omega (
          arith,
          fits,
          length-append (put_string p.public_addr) (put_string p.local_addr),
          length-put_string p.public_addr,
          length-put_string p.local_addr,
        )))
    ∙ parse_peer_response-strings p.public_addr p.local_addr fits

-- Over a table whose entries fit into a response, LookupPeer of an ID that fits into a request
-- returns the addresses of the entry of that ID, or that the peer is not found; it has no other
-- error.
pub lookup_peer_lem :
    (now : ℕ) (peers : Peers) (peer_id : List ℕ)
    → 2 + length peer_id ≤ max_body
    → All IsServable peers
    → lookup_peer now peers peer_id ≡ answer (find peer_id peers)
unfolding lookup_peer handle_connection handle_frame dispatch peer_request_message
lookup_peer_lem now peers peer_id h servable =
    ap
      (λ (x : Outcome FrameError (ℕ × List ℕ)).
        read_response (handle_frame now peers x).1 >>= check_found)
      (read_frame-alone msg_type_peer_request (put_string peer_id)
        (omega (arith, length-put_string peer_id)))
    ∙ ap (λ (x : List ℕ). read_response x >>= check_found)
        (handle_peer_request-put_string peers peer_id h)
    ∙ check_found-respond (find peer_id peers)
        (λ p e. (find-All IsServable peer_id peers p servable e).1)

-- After Register, LookupPeer of the same ID returns the registered addresses, and of any other ID
-- what it returned before, where the strings fit into their messages and the entries of the table
-- into a response.
pub lookup_peer-register :
    (now later : ℕ) (peers : Peers) (peer_id public_addr local_addr other : List ℕ)
    → 6 + (length peer_id + (length public_addr + length local_addr)) ≤ max_body
    → 2 + length other ≤ max_body
    → other ≢ peer_id
    → All IsServable peers
    → (lookup_peer later (register now peers peer_id public_addr local_addr).0 peer_id
        ≡ ok (public_addr, local_addr))
      × (lookup_peer later (register now peers peer_id public_addr local_addr).0 other
          ≡ lookup_peer later peers other)
lookup_peer-register now later peers a b c other h k ne servable =
    let after = store a (registered now a b c) peers in
    let e : (register now peers a b c).0 ≡ after =
      ap (λ (x : Peers × Outcome ClientError (Unit {0})). x.0) (register_lem now peers a b c h) in
    let fits : All IsServable after =
      store-All IsServable a (registered now a b c) peers (omega arith) servable in
    (
      ap (λ (p : Peers). lookup_peer later p a) e
          ∙ lookup_peer_lem later after a (omega arith) fits
          ∙ ap answer (find-store_self a (registered now a b c) peers),
      ap (λ (p : Peers). lookup_peer later p other) e
          ∙ lookup_peer_lem later after other k fits
          ∙ ap answer (find-store_other a other (registered now a b c) peers (λ q. ne (sym q)))
          ∙ sym (lookup_peer_lem later peers other k servable),
    )
