-- ===== src/Nat.antt =====
-- internal/nat: traversal of address translators.
pub mod Punch
pub mod Stun
pub mod Frames
pub mod Signaling
pub mod Relay
