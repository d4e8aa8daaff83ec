-- ===== src/Nat/Punch/Attempts.antt =====
-- The sending loop is bounded: it returns in time, and sends so many packets.
use mathlib.Core.List.{reverse, reverse-cons}
use p2p_file_sync.Prelude.{
  zero, map, ◌++◌, append_assoc, ap, sym, ◌∙◌, ℕ, suc, ◌+◌, ◌≤◌, ◌<◌, ◌≡◌, refl, Bool, true, false,
  List, [], ◌∷◌, arith, ltb, ltb→lt, if-cases,
}
use p2p_file_sync.Nat.Punch.{
  Attempt, Event, ctx_done, success_from, listen_error, tick, Progress, waiting, returned, send_all,
  on_event, go_on, punch_loop, punch_packet, hole_punch_syn,
}

abbrev pub ticks : List Event → ℕ
ticks [] = 0
ticks (tick ∷ events) = suc (ticks events)
ticks (ctx_done ∷ events) = ticks events
ticks (success_from addr ∷ events) = ticks events
ticks (listen_error ∷ events) = ticks events

abbrev pub attempt_of : Progress → Attempt
attempt_of (waiting r) = r
attempt_of (returned r) = r

abbrev pub has_returned : Progress → Bool
has_returned (waiting r) = false
has_returned (returned r) = true

-- The packets of one attempt, one SYN of the session to each target, the last one first.
abbrev pub syn_to : List ℕ → ℕ → ℕ × List ℕ
syn_to session_id target = (target, punch_packet hole_punch_syn session_id)

abbrev pub one_round : List ℕ → List ℕ → List (ℕ × List ℕ)
one_round session_id targets = reverse (map (syn_to session_id) targets)

abbrev pub rounds : List ℕ → List ℕ → ℕ → List (ℕ × List ℕ)
rounds session_id targets zero = []
rounds session_id targets (suc n) = one_round session_id targets ++ rounds session_id targets n

-- There are at most `bound` attempts, and what is sent is exactly their packets.
abbrev pub IsBounded : ℕ → List ℕ → List ℕ → Attempt → Type 0
IsBounded bound targets session_id r =
    (r.attempts ≤ bound) × (r.sent ≡ rounds session_id targets r.attempts)

send_all-one_round :
    (session_id targets : List ℕ) (sent : List (ℕ × List ℕ))
    → send_all session_id targets sent ≡ one_round session_id targets ++ sent
unfolding send_all
send_all-one_round session_id [] sent = refl
send_all-one_round session_id (target ∷ targets) sent =
    let packet = syn_to session_id target in
    send_all-one_round session_id targets (packet ∷ sent)
    ∙ sym (append_assoc (one_round session_id targets) (packet ∷ []) sent)
    ∙ ap (λ (t : List (ℕ × List ℕ)). t ++ sent)
        (sym (reverse-cons packet (map (syn_to session_id) targets)))

abbrev Ends : ℕ → List ℕ → List ℕ → Attempt → List Event → Progress → Type 0
Ends bound targets session_id r events p =
    IsBounded bound targets session_id (attempt_of p)
    × (bound ≤ r.attempts + ticks events → has_returned p ≡ true)

suc_eq : (n : ℕ) → suc n ≡ n + 1
suc_eq n = omega arith

punch_loop-step :
    (bound : ℕ) (targets session_id : List ℕ) (e : Event) (events : List Event) (r : Attempt)
    → ((r' : Attempt)
        → IsBounded bound targets session_id r'
        → Ends bound targets session_id r' events (punch_loop bound targets session_id events r'))
    → IsBounded bound targets session_id r
    → r.attempts < bound
    → Ends bound targets session_id r
        (e ∷ events)
        (go_on (punch_loop bound targets session_id events) (on_event targets session_id e r))
unfolding on_event go_on
punch_loop-step bound targets session_id ctx_done events r ih h k = (h, λ q. refl)
punch_loop-step bound targets session_id (success_from a) events r ih h k = (h, λ q. refl)
punch_loop-step bound targets session_id listen_error events r ih h k = ih r h
punch_loop-step bound targets session_id tick events r ih h k =
    let next : Attempt = record r {
      attempts = r.attempts + 1;
      sent = send_all session_id targets r.sent;
    } in
    let sent : next.sent ≡ rounds session_id targets (r.attempts + 1) =
      send_all-one_round session_id targets r.sent
      ∙ ap (λ (t : List (ℕ × List ℕ)). one_round session_id targets ++ t) h.1
      ∙ ap (rounds session_id targets) (suc_eq r.attempts) in
    let all = ih next (omega arith, sent) in (all.0, λ q. all.1 (omega arith))

-- From an attempt on that is within the bound and has sent the packets of its attempts, whatever
-- events come, the loop makes at most `bound` attempts, and has sent exactly one SYN packet of the
-- session to each target in each of them, in order; and where the ticks, with the attempts made
-- before, reach the bound, it has returned.
pub punch_loop-IsBounded :
    (bound : ℕ) (targets session_id : List ℕ) (events : List Event) (r : Attempt)
    → IsBounded bound targets session_id r
    → IsBounded bound targets session_id (attempt_of (punch_loop bound targets session_id events r))
      × (bound ≤ r.attempts + ticks events
          → has_returned (punch_loop bound targets session_id events r) ≡ true)
unfolding punch_loop
punch_loop-IsBounded bound targets session_id [] r h =
    if-cases (Ends bound targets session_id r []) (ltb r.attempts bound) _ _
      (λ e. (h, λ q. absurd (omega (arith, ltb→lt r.attempts bound e)))) (λ e. (h, λ q. refl))
punch_loop-IsBounded bound targets session_id (e ∷ events) r h =
    if-cases (Ends bound targets session_id r (e ∷ events)) (ltb r.attempts bound) _ _
      (λ less.
        punch_loop-step bound targets session_id e events r
          (punch_loop-IsBounded bound targets session_id events) h (ltb→lt r.attempts bound less))
      (λ less. (h, λ q. refl))
