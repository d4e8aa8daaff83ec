-- ===== src/Nat/Punch/Link/Sessions.antt =====
-- Whether two peers meet depends on their sessions.
use p2p_file_sync.Prelude.{
  ℕ, ◌≡◌, ◌≢◌, refl, ap, sym, ◌∙◌, subst, Bool, true, false, Bool-cases, inl, inr, List, [], ◌∷◌,
  length, if◌then◌else◌,
}
use p2p_file_sync.Bytes.{All, Any, bytes_equal, bytes_equal→eq, bytes_equal_refl}
use p2p_file_sync.Nat.Punch.{
  hole_punch_syn, hole_punch_syn_ack, hole_punch_ack, punch_packet, Reaction, skipped, react,
}
use p2p_file_sync.Nat.Punch.Listen.{listen_packet-punch_packet}
use p2p_file_sync.Nat.Punch.Link.{
  Peer, new_peer, send, apply_reaction, receive, Pair, Step, tick_left, tick_right, deliver_left,
  deliver_right, Reach, here, next,
}

-- Everything that a peer has sent is a packet of its session.
abbrev OwnPacket : List ℕ → List ℕ → Type 0
OwnPacket session_id x = (t : ℕ) × (x ≡ punch_packet t session_id)

record IsSilent (session_id : List ℕ) (p : Peer) : Type 0 where
  same : p.session_id ≡ session_id
  own : All (OwnPacket session_id) p.sent
  quiet : p.reported ≡ false

found :
    (P : List ℕ → Type 0) (xs : List (List ℕ)) (x : List ℕ)
    → All P xs
    → Any (λ (y : List ℕ). y ≡ x) xs
    → P x
found P [] x h a = absurd a
found P (y ∷ ys) x h (inl e) = subst P e h.0
found P (y ∷ ys) x h (inr a) = found P ys x h.1 a

send-IsSilent :
    (session_id : List ℕ) (t : ℕ) (p : Peer)
    → IsSilent session_id p
    → IsSilent session_id (send t p)
unfolding send
send-IsSilent session_id t p h = record {
  same = h.same;
  own = ((t, ap (punch_packet t) h.same), h.own);
  quiet = h.quiet;
}

bytes_equal-ne : (x y : List ℕ) → x ≢ y → bytes_equal x y ≡ false
bytes_equal-ne x y h = elim (Bool-cases (bytes_equal x y)) [
  | inl e ↦ absurd (h (bytes_equal→eq x y e))
  | inr e ↦ e
]

-- A packet of another session changes nothing.
receive-other :
    (session_id other : List ℕ) (t : ℕ) (p : Peer)
    → length other ≡ 8
    → other ≢ session_id
    → p.session_id ≡ session_id
    → receive (punch_packet t other) p ≡ p
unfolding receive apply_reaction
receive-other session_id other t p h ne e =
    ap (λ (r : Reaction). apply_reaction r p)
      (listen_packet-punch_packet p.session_id other t h
        ∙ ap (λ (b : Bool). if b then react t else skipped)
            (bytes_equal-ne other p.session_id (λ q. ne (q ∙ e))))

receive-IsSilent :
    (session_id other datagram : List ℕ) (p q : Peer)
    → length other ≡ 8
    → other ≢ session_id
    → IsSilent session_id p
    → IsSilent other q
    → Any (λ (x : List ℕ). x ≡ datagram) q.sent
    → IsSilent session_id (receive datagram p)
receive-IsSilent session_id other datagram p q h ne silent from a =
    let (t, packet) = found (OwnPacket other) q.sent datagram from.own a in
    subst (λ (x : List ℕ). IsSilent session_id (receive x p)) (sym packet)
      (subst (IsSilent session_id) (sym (receive-other session_id other t p h ne silent.same))
        silent)

module _ (a b : List ℕ) (a_eight : length a ≡ 8) (b_eight : length b ≡ 8) (differ : a ≢ b) where
  abbrev BothSilent : Pair → Type 0
  BothSilent s = IsSilent a s.left × IsSilent b s.right

  Step-BothSilent : (s t : Pair) → Step s t → BothSilent s → BothSilent t
  Step-BothSilent s t (tick_left e) (l, r) =
      subst BothSilent (sym e) (send-IsSilent a hole_punch_syn s.left l, r)
  Step-BothSilent s t (tick_right e) (l, r) =
      subst BothSilent (sym e) (l, send-IsSilent b hole_punch_syn s.right r)
  Step-BothSilent s t (deliver_left d at on e) (l, r) =
      subst BothSilent (sym e)
        (receive-IsSilent a b d s.left s.right b_eight (λ q. differ (sym q)) l r at, r)
  Step-BothSilent s t (deliver_right d at on e) (l, r) =
      subst BothSilent (sym e) (l, receive-IsSilent b a d s.right s.left a_eight differ r l at)

  Reach-BothSilent : {s t : Pair} → BothSilent s → Reach s t → BothSilent t
  Reach-BothSilent h here = h
  Reach-BothSilent h (next {t = u} {u = v} r step) = Step-BothSilent u v step (Reach-BothSilent h r)

-- Two peers that have drawn different sessions of eight bytes, as each does for itself in Connect,
-- never meet: in no state that any ticks and deliveries lead to has either reported a success.
pub reported-never :
    (a b : List ℕ) (t : Pair)
    → length a ≡ 8
    → length b ≡ 8
    → a ≢ b
    → Reach (record { left = new_peer a; right = new_peer b }) t
    → (t.left.reported ≡ false) × (t.right.reported ≡ false)
reported-never a b t h k differ r =
    let start : IsSilent a (new_peer a) = record { same = refl; own = tt; quiet = refl } in
    let start' : IsSilent b (new_peer b) = record { same = refl; own = tt; quiet = refl } in
    let silent = Reach-BothSilent a b h k differ (start, start') r in
    (silent.0.quiet, silent.1.quiet)

receive-same :
    (t : ℕ) (p : Peer)
    → length p.session_id ≡ 8
    → receive (punch_packet t p.session_id) p ≡ apply_reaction (react t) p
unfolding receive
receive-same t p h =
    ap (λ (r : Reaction). apply_reaction r p)
      (listen_packet-punch_packet p.session_id p.session_id t h
        ∙ ap (λ (b : Bool). if b then react t else skipped) (bytes_equal_refl p.session_id))

-- Peers that share a session of eight bytes can meet: some ticks and deliveries lead from the start
-- to a state in which both have reported a success.
pub reported-shared :
    (a : List ℕ)
    → length a ≡ 8
    → (t : Pair) × Reach (record { left = new_peer a; right = new_peer a }) t
      × (t.left.reported ≡ true)
      × (t.right.reported ≡ true)
unfolding send apply_reaction react
reported-shared a h =
    let s0 : Pair = record { left = new_peer a; right = new_peer a } in
    let s1 : Pair = record s0 { left = send hole_punch_syn s0.left } in
    let s2 : Pair = record s1 { right = send hole_punch_syn_ack s1.right } in
    let s3 : Pair = record s2 {
      left = record (send hole_punch_ack s2.left) { listening = false; reported = true };
    } in
    let s4 : Pair = record s3 { right = record s3.right { listening = false; reported = true } } in
    (
      s4,
      next
          (next
            (next (next here (tick_left refl)) (
              deliver_right (punch_packet hole_punch_syn a) (inl refl) refl (
                ap (λ (p : Peer). record s1 { right = p })
                  (sym (receive-same hole_punch_syn s1.right h)))))
            (deliver_left (punch_packet hole_punch_syn_ack a) (inl refl) refl (
              ap (λ (p : Peer). record s2 { left = p })
                (sym (receive-same hole_punch_syn_ack s2.left h)))))
          (deliver_right (punch_packet hole_punch_ack a) (inl refl) refl (
            ap (λ (p : Peer). record s3 { right = p })
              (sym (receive-same hole_punch_ack s3.right h)))),
      refl,
      refl,
    )
