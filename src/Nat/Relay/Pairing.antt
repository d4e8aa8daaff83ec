-- ===== src/Nat/Relay/Pairing.antt =====
-- Two connections with the same session ID are paired, and what becomes of the pair.
use p2p_file_sync.Prelude.{ℕ, ◌≡◌, ◌≢◌, refl, ap, ◌∙◌, none, some, List, ◌∷◌}
use p2p_file_sync.Bytes.{text_bytes}
use p2p_file_sync.Assoc.{
  find, store, discard, find-store_self, find-store_other, find-discard_self, find-discard_other,
}
use p2p_file_sync.Nat.Frames.{frame}
use p2p_file_sync.Nat.Relay.{
  Server, write_to, pair_or_wait, pair, expire, relay_msg_connect_ack, relay_msg_error,
}

pair-first :
    (a : ℕ) (id : List ℕ) (s : Server)
    → find id s.waiting ≡ none
    → pair a id s ≡ record s { waiting = store id a s.waiting; timers = (a, id) ∷ s.timers }
unfolding pair pair_or_wait
pair-first a id s h = ap (pair_or_wait a id s) h

abbrev paired : ℕ → ℕ → List ℕ → Server → Server
paired a b id s = record s {
  waiting = discard id s.waiting;
  sessions = store id (a, b) s.sessions;
  written = (b, frame relay_msg_connect_ack id) ∷ (a, frame relay_msg_connect_ack id) ∷ s.written;
}

pair-second :
    (a b : ℕ) (id : List ℕ) (s : Server)
    → find id s.waiting ≡ some a
    → pair b id s ≡ paired a b id s
unfolding pair pair_or_wait write_to
pair-second a b id s h = ap (pair_or_wait b id s) h

-- The server after a first and a second connection for the session.
abbrev pub both : ℕ → ℕ → List ℕ → Server → Server
both a b id s = pair b id (pair a id s)

both-paired :
    (a b : ℕ) (id : List ℕ) (s : Server)
    → find id s.waiting ≡ none
    → both a b id s
      ≡ paired a b id (record s { waiting = store id a s.waiting; timers = (a, id) ∷ s.timers })
both-paired a b id s h =
    let first : Server = record s { waiting = store id a s.waiting; timers = (a, id) ∷ s.timers } in
    ap (pair b id) (pair-first a id s h) ∙ pair-second a b id first (find-store_self id a s.waiting)

-- Where no connection waits for a session, the first one that comes for it waits, and the second is
-- paired with it: the session holds both, no connection waits for it, and both have got an
-- acknowledgement. The waiting connections and the sessions of every other ID are as before.
pub both_lem :
    (a b : ℕ) (id : List ℕ) (s : Server)
    → find id s.waiting ≡ none
    → (find id (both a b id s).sessions ≡ some (a, b))
      × (find id (both a b id s).waiting ≡ none)
      × ((both a b id s).written
          ≡ (b, frame relay_msg_connect_ack id) ∷ (a, frame relay_msg_connect_ack id) ∷ s.written)
      × ((both a b id s).closed ≡ s.closed)
      × ((other : List ℕ)
          → id ≢ other
          → (find other (both a b id s).sessions ≡ find other s.sessions)
            × (find other (both a b id s).waiting ≡ find other s.waiting))
both_lem a b id s h =
    let e = both-paired a b id s h in
    (
      ap (λ (t : Server). find id t.sessions) e ∙ find-store_self id (a, b) s.sessions,
      ap (λ (t : Server). find id t.waiting) e ∙ find-discard_self id (store id a s.waiting),
      ap (λ (t : Server). t.written) e,
      ap (λ (t : Server). t.closed) e,
      λ other ne. (
        ap (λ (t : Server). find other t.sessions) e
            ∙ find-store_other id other (a, b) s.sessions ne,
        ap (λ (t : Server). find other t.waiting) e
            ∙ find-discard_other id other (store id a s.waiting) ne
            ∙ find-store_other id other a s.waiting ne,
      ),
    )

-- The timer of the first connection outlives the pairing: when it fires, the session is still in the
-- table, but an error is written to its first connection, among the bytes that are relayed, and that
-- connection is closed. A third connection that has begun to wait for the same ID is forgotten.
pub expire-both :
    (a b third : ℕ) (id : List ℕ) (s : Server)
    → find id s.waiting ≡ none
    → ((x : List (ℕ × List ℕ)) × ((both a b id s).timers ≡ (a, id) ∷ x))
      × (find id (expire a id (both a b id s)).sessions ≡ some (a, b))
      × ((expire a id (both a b id s)).written
          ≡ (a, frame relay_msg_error (text_bytes "timeout waiting for peer"))
            ∷ (both a b id s).written)
      × ((expire a id (both a b id s)).closed ≡ a ∷ s.closed)
      × (find id (pair third id (both a b id s)).waiting ≡ some third)
      × (find id (expire a id (pair third id (both a b id s))).waiting ≡ none)
unfolding expire write_to
expire-both a b third id s h =
    let all = both_lem a b id s h in
    (
      (s.timers, ap (λ (t : Server). t.timers) (both-paired a b id s h)),
      all.0,
      refl,
      ap (λ (t : List ℕ). a ∷ t) all.3,
      ap (λ (t : Server). find id t.waiting) (pair-first third id (both a b id s) all.1)
          ∙ find-store_self id third (both a b id s).waiting,
      find-discard_self id (pair third id (both a b id s)).waiting,
    )
