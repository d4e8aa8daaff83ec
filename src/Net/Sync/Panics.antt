-- ===== src/Net/Sync/Panics.antt =====
-- A peer that answers the request for its manifest with another message.
use p2p_file_sync.Prelude.{
  ℕ, ◌≡◌, ◌≢◌, ap, ◌∙◌, Bool, true, false, ◌==◌, if◌then◌else◌, Option, none, some, List, arith,
  Outcome, ok,
}
use p2p_file_sync.Stream.{Stream}
use p2p_file_sync.Cas.Store.{Disk, Faults}
use p2p_file_sync.Merkle.{Node}
use p2p_file_sync.Proto.{Envelope, EnvelopeError, read_envelope}
use p2p_file_sync.Net.{
  Protobuf, ChunkResponse, RequestError, no_response, message_type_manifest_response,
  decoded_manifest, manifest_of, request_manifest,
}
use p2p_file_sync.Net.Sync.{panics, returns, after_manifest, in_sync, sync_with_peer, new_result}

not_equal : (a b : ℕ) → a ≢ b → (a == b) ≡ false
not_equal a b h = ground arith

-- Where the peer is not in sync and answers the request for its manifest with an envelope of another
-- type, SyncWithPeer panics, whatever the local tree is.
pub sync_with_peer-request_manifest :
    (faults : ℕ → Faults) (ask : ℕ → List (List ℕ) → Outcome RequestError ChunkResponse)
    (tree : Option Node) (peer_root : Option (List ℕ)) (pb : Protobuf) (s rest : Stream)
    (env : Envelope) (disk : Disk)
    → in_sync tree peer_root ≡ false
    → read_envelope pb.envelope s ≡ ok (env, rest)
    → env.envelope_type ≢ message_type_manifest_response
    → sync_with_peer faults ask tree peer_root (request_manifest pb (some s)) disk ≡ panics
unfolding sync_with_peer request_manifest manifest_of after_manifest
sync_with_peer-request_manifest faults ask tree peer_root pb s rest env disk apart read other =
    ap
      (λ (b : Bool).
        if b
        then returns none
            (record { result = record new_result { already_in_sync = true }; disk = disk })
        else after_manifest faults ask tree disk (request_manifest pb (some s)))
      apart
    ∙ ap
        (λ (x : Outcome EnvelopeError (Envelope × Stream)).
          after_manifest faults ask tree disk (manifest_of pb x))
        read
    ∙ ap
        (λ (b : Bool).
          after_manifest faults ask tree disk
            (if b then decoded_manifest (pb.manifest_response env.payload) else ok no_response))
        (not_equal env.envelope_type message_type_manifest_response other)
