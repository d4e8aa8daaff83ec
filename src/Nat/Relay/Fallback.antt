-- ===== src/Nat/Relay/Fallback.antt =====
-- FallbackStrategy.Connect: hole punching first, the relay next.
mod Tests
use p2p_file_sync.Prelude.{
  ℕ, Bool, true, false, if◌then◌else◌, Option, none, some, List, [], ◌∷◌, Outcome, ok, err,
}
use p2p_file_sync.Nat.Signaling.{ClientError}

-- What hole punching returns: an error, with a nil result, or a result, with its success and its
-- attempts.
pub record Punched : Type 0 where
  pub success : Bool
  pub attempts : ℕ

-- ConnectionResult, by its method. `Conn` is what the relay's client returns.
pub data Connection (Conn : Type 0) : Type 0 where
  hole_punch : ℕ → Connection Conn
  relay : Conn → ℕ → Connection Conn

pub data FallbackError : Type 0 where
  hole_punch_failed relay_connection_failed : FallbackError

-- What the call does: it may panic.
pub data Called (Conn : Type 0) : Type 0 where
  panics : Called Conn
  returns : Outcome FallbackError (Connection Conn) → Called Conn

-- The call, with whether Connect of the relay's client was called.
pub record Run (Conn : Type 0) : Type 0 where
  pub relay_tried : Bool
  pub call : Called Conn

module _ {Conn : Type 0} where
  unfoldable pub relay_answer : ℕ → Option Conn → Outcome FallbackError (Connection Conn)
  relay_answer hole_punch_attempts none = err relay_connection_failed
  relay_answer hole_punch_attempts (some conn) = ok (relay conn hole_punch_attempts)

  -- connectViaRelay. `client` is what the client's Connect returns, if it returns no error.
  unfoldable pub connect_via_relay : List ℕ → Option Conn → ℕ → Run Conn
  unfolding relay_answer
  connect_via_relay [] client hole_punch_attempts = record {
    relay_tried = false;
    call = returns (err hole_punch_failed);
  }
  connect_via_relay (c ∷ addr) client hole_punch_attempts = record {
    relay_tried = true;
    call = returns (relay_answer hole_punch_attempts client);
  }

  -- FallbackStrategy.Connect behind Initialize. The attempts of the result are read also where
  -- Connect has returned nil with an error.
  unfoldable pub after_punch : List ℕ → Option Conn → Option Punched → Run Conn
  unfolding connect_via_relay
  after_punch relay_addr client none = record { relay_tried = false; call = panics }
  after_punch relay_addr client (some r) =
      if r.success
      then record { relay_tried = false; call = returns (ok (hole_punch r.attempts)) }
      else connect_via_relay relay_addr client r.attempts

  -- `initialized` tells whether Initialize returns no error, and `punched` what Connect returns.
  unfoldable pub connect : List ℕ → Bool → Option Punched → Option Conn → Run Conn
  unfolding after_punch
  connect relay_addr false punched client = connect_via_relay relay_addr client 0
  connect relay_addr true punched client = after_punch relay_addr client punched

-- HolePuncher.Connect, from the answer of the signalling server on. `resolves` tells which public
-- addresses net.ResolveUDPAddr takes, and `attempt` is the result of attemptHolePunch.
unfoldable pub hole_puncher_connect :
    (List ℕ → Bool) → Punched → Outcome ClientError (List ℕ × List ℕ) → Option Punched
hole_puncher_connect resolves attempt (err e) = none
hole_puncher_connect resolves attempt (ok (public_addr, local_addr)) =
    if resolves public_addr then some attempt else none
