-- ===== src/Nat/Signaling/Servable.antt =====
-- Whatever clients send, every entry of the server's table fits into a response.
use p2p_file_sync.Prelude.{
  ℕ, zero, suc, ◌+◌, ◌≤◌, ◌≡◌, refl, ap, sym, false, Bool-cases, inl, inr, Option, none, some,
  some-cancel, List, [], ◌∷◌, arith, ltb, ◌==◌, if-cases, length, take, drop, length-take,
  length-drop, Outcome, ok, err, >>=_inv, ok-injective,
}
use p2p_file_sync.Bytes.{All, get_uint}
use p2p_file_sync.Stream.{
  Stream, read_full, read_more, eof, fault, byte, complete, end_of_file, unexpected_eof, failed,
  ReadError,
}
use p2p_file_sync.Assoc.{store-All}
use p2p_file_sync.Nat.Frames.{
  take_string, get_string, FrameError, too_large, reading_header, reading_body, all_or, read_body,
  read_frame,
}
use p2p_file_sync.Nat.Signaling.{
  Peers, PeerInfo, max_body, register_local, register_public, register_id, handle_register,
  dispatch, handle_frame, handle_connection, cleanup, msg_type_register, msg_type_peer_request,
}

-- The two addresses with their lengths fit into a body.
abbrev pub IsServable : List ℕ × PeerInfo → Type 0
IsServable (id, p) = 4 + (length p.public_addr + length p.local_addr) ≤ max_body

length-read_more : (n got : ℕ) (s : Stream) → length (read_more n got s).bytes ≤ n
unfolding read_more
length-read_more zero got s = omega arith
length-read_more (suc n) got fault = omega arith
length-read_more (suc n) zero eof = omega arith
length-read_more (suc n) (suc got) eof = omega arith
length-read_more (suc n) zero (byte b r) = omega (arith, length-read_more n 1 r)
length-read_more (suc n) (suc got) (byte b r) = omega (arith, length-read_more n (suc (suc got)) r)

all_or-ok :
    (bytes : List ℕ) (e : ReadError) (rest : Stream) (f : FrameError) (x : List ℕ × Stream)
    → all_or f (record { bytes = bytes; error = e; rest = rest }) ≡ ok x
    → x.0 ≡ bytes
unfolding all_or
all_or-ok bytes complete rest f x h = ap (λ (t : List ℕ × Stream). t.0) (sym (ok-injective h))
all_or-ok bytes end_of_file rest f x h = cc
all_or-ok bytes unexpected_eof rest f x h = cc
all_or-ok bytes failed rest f x h = cc

read_body-short :
    (limit t n : ℕ) (s : Stream) (m : ℕ × List ℕ)
    → read_body limit t n s ≡ ok m
    → length m.1 ≤ limit
unfolding read_body
read_body-short limit t n s m h = elim (Bool-cases (ltb limit n)) [
  | inl e ↦ cc (rw e at h)
  | inr e ↦
      let (x, made, got) =
        >>=_inv (all_or reading_body (read_full n s)) (λ (b, r). ok (t, b)) (rw e at h) in
      let body = all_or-ok _ _ _ reading_body x got in
      omega (
        arith,
        ap (λ (y : ℕ × List ℕ). length y.1) (ok-injective made),
        ap length body,
        length-read_more n 0 s,
        not_over limit n e,
      )
]
  where
    not_over : (a b : ℕ) → ltb a b ≡ false → b ≤ a
    not_over a b e = ground arith

read_frame-short :
    (limit : ℕ) (s : Stream) (m : ℕ × List ℕ) → read_frame limit s ≡ ok m → length m.1 ≤ limit
unfolding read_frame
read_frame-short limit s m h =
    let (x, made, got) = >>=_inv (all_or reading_header (read_full 5 s)) _ h in
    read_body-short limit _ _ x.1 m made

-- A string takes its length and two bytes more.
get_string-length :
    (body s rest : List ℕ)
    → get_string body ≡ some (s, rest)
    → 2 + (length s + length rest) ≤ length body
unfolding get_string take_string
get_string-length body s rest h = elim (Bool-cases (ltb (length body) 2)) [
  | inl e ↦ cc (rw e at h)
  | inr e ↦
      let n = get_uint (take 2 body) in
      let after = drop 2 body in
      elim (Bool-cases (ltb (length after) n)) [
        | inl f ↦ cc (rw (e, f) at h)
        | inr f ↦
            let parts = some-cancel (rw (e, f) at h) in
            omega (
              arith,
              ap (λ (x : List ℕ × List ℕ). length x.0 + length x.1) parts,
              length-take n after,
              length-drop n after,
              length-drop 2 body,
              not_below (length body) 2 e,
            )
      ]
]
  where
    not_below : (a b : ℕ) → ltb a b ≡ false → b ≤ a
    not_below a b e = ground arith

module _ (now : ℕ) (peers : Peers) (servable : All IsServable peers) where
  register_local-IsServable :
      (id public_addr : List ℕ) (o : Option (List ℕ × List ℕ))
      → ((s r : List ℕ) → o ≡ some (s, r) → 4 + (length public_addr + length s) ≤ max_body)
      → All IsServable (register_local now peers id public_addr o).0
  unfolding register_local
  register_local-IsServable id public_addr none h = servable
  register_local-IsServable id public_addr (some (s, r)) h =
      store-All IsServable id _ peers (h s r refl) servable

  register_public-IsServable :
      (id : List ℕ) (o : Option (List ℕ × List ℕ))
      → ((s r : List ℕ) → o ≡ some (s, r) → 4 + (length s + length r) ≤ max_body)
      → All IsServable (register_public now peers id o).0
  unfolding register_public
  register_public-IsServable id none h = servable
  register_public-IsServable id (some (s, r)) h =
      register_local-IsServable id s (get_string r)
        (λ t q e. omega (arith, h s r refl, get_string-length r t q e))

  register_id-IsServable :
      (o : Option (List ℕ × List ℕ))
      → ((s r : List ℕ) → o ≡ some (s, r) → 2 + length r ≤ max_body)
      → All IsServable (register_id now peers o).0
  unfolding register_id
  register_id-IsServable none h = servable
  register_id-IsServable (some (s, r)) h =
      register_public-IsServable s (get_string r)
        (λ t q e. omega (arith, h s r refl, get_string-length r t q e))

  handle_register-IsServable :
      (body : List ℕ) → length body ≤ max_body → All IsServable (handle_register now peers body).0
  unfolding handle_register
  handle_register-IsServable body h =
      if-cases (λ (x : Peers × List ℕ). All IsServable x.0) (ltb (length body) 6) _ _
        (λ e. servable)
        (λ e.
          register_id-IsServable (get_string body)
            (λ s r q. omega (arith, get_string-length body s r q)))

  dispatch-IsServable :
      (t : ℕ) (body : List ℕ)
      → length body ≤ max_body
      → All IsServable (dispatch now peers t body).0
  unfolding dispatch
  dispatch-IsServable t body h =
      let P = λ (x : Peers × List ℕ). All IsServable x.0 in
      if-cases P (t == msg_type_register) _ _ (λ e. handle_register-IsServable body h)
        (λ e. if-cases P (t == msg_type_peer_request) _ _ (λ f. servable) (λ f. servable))

  handle_frame-IsServable :
      (x : Outcome FrameError (ℕ × List ℕ))
      → ((m : ℕ × List ℕ) → x ≡ ok m → length m.1 ≤ max_body)
      → All IsServable (handle_frame now peers x).0
  unfolding handle_frame
  handle_frame-IsServable (ok (t, body)) h = dispatch-IsServable t body (h (t, body) refl)
  handle_frame-IsServable (err too_large) h = servable
  handle_frame-IsServable (err reading_header) h = servable
  handle_frame-IsServable (err reading_body) h = servable

cleanup-IsServable :
    (expiry now : ℕ) (peers : Peers)
    → All IsServable peers
    → All IsServable (cleanup expiry now peers)
unfolding cleanup
cleanup-IsServable expiry now [] h = tt
cleanup-IsServable expiry now ((id, p) ∷ peers) (h, hs) =
    if-cases (All IsServable) (ltb (p.last_seen + expiry) now) _ _
      (λ e. cleanup-IsServable expiry now peers hs)
      (λ e. (h, cleanup-IsServable expiry now peers hs))

-- The entries of the table keep fitting into a response, whatever bytes come over a connection, and
-- when expired peers are removed.
pub handle_connection-IsServable :
    (now expiry : ℕ) (peers : Peers) (conn : Stream)
    → All IsServable peers
    → All IsServable (handle_connection now peers conn).0
      × All IsServable (cleanup expiry now peers)
unfolding handle_connection
handle_connection-IsServable now expiry peers conn h = (
  handle_frame-IsServable now peers h (read_frame max_body conn)
      (λ m e. read_frame-short max_body conn m e),
  cleanup-IsServable expiry now peers h,
)
