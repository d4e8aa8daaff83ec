-- ===== src/Nat/Punch/Tests.antt =====
-- Runs of the sending loop and of the listener, and their theorems for two sessions.
use p2p_file_sync.Prelude.{
  ℕ, ◌≡◌, ◌≢◌, refl, ap, false, true, none, List, [], ◌∷◌, arith, ◌≤◌, ◌+◌, get_or,
}
use p2p_file_sync.Nat.Punch.{
  Attempt, Event, listen_error, tick, punch_loop, send_all, on_event, go_on, max_punch_attempts,
}
use p2p_file_sync.Nat.Punch.Attempts.{
  IsBounded, attempt_of, has_returned, ticks, punch_loop-IsBounded,
}
use p2p_file_sync.Nat.Punch.Link.{Pair, new_peer, send, tick_left, Reach, here, next}
use p2p_file_sync.Nat.Punch.Link.Sessions.{reported-never, reported-shared}

abbrev first_session : List ℕ
first_session = 1 ∷ 2 ∷ 3 ∷ 4 ∷ 5 ∷ 6 ∷ 7 ∷ 8 ∷ []

abbrev second_session : List ℕ
second_session = 8 ∷ 7 ∷ 6 ∷ 5 ∷ 4 ∷ 3 ∷ 2 ∷ 1 ∷ []

abbrev start : Attempt
start = record { attempts = 0; success = false; remote_addr = none; sent = [] }

abbrev five_ticks : List Event
five_ticks = tick ∷ listen_error ∷ tick ∷ tick ∷ tick ∷ tick ∷ []

has_returned_run :
    has_returned (punch_loop max_punch_attempts (70 ∷ 71 ∷ []) first_session five_ticks start)
    ≡ true
unfolding punch_loop go_on on_event send_all
has_returned_run = refl

punch_loop-IsBounded_example :
    IsBounded 5
      (70 ∷ 71 ∷ [])
      first_session
      (attempt_of (punch_loop 5 (70 ∷ 71 ∷ []) first_session five_ticks start))
    × (5 ≤ 0 + ticks five_ticks
        → has_returned (punch_loop 5 (70 ∷ 71 ∷ []) first_session five_ticks start) ≡ true)
punch_loop-IsBounded_example =
    punch_loop-IsBounded 5 (70 ∷ 71 ∷ []) first_session five_ticks start (omega arith, refl)

sessions-differ : first_session ≢ second_session
sessions-differ e = absurd (omega (arith, ap (λ (s : List ℕ). get_or s 0 0) e))

abbrev punched : Pair
punched = record { left = send 1 (new_peer first_session); right = new_peer second_session }

reported-never_example : (punched.left.reported ≡ false) × (punched.right.reported ≡ false)
reported-never_example =
    reported-never first_session second_session punched refl refl sessions-differ
      (next here (tick_left refl))

reported-shared_example :
    (t : Pair) × Reach (record { left = new_peer first_session; right = new_peer first_session }) t
    × (t.left.reported ≡ true)
    × (t.right.reported ≡ true)
reported-shared_example = reported-shared first_session refl
