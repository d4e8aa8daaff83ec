-- ===== src/Net/Sync/Manifests.antt =====
-- The tree that a peer sends is the one that SyncWithPeer compares with its own.
use p2p_file_sync.Prelude.{
  ℕ, ◌≤◌, ◌≡◌, refl, ap, ◌∙◌, Bool, false, Option, none, some, List, ◌++◌, length, Outcome, ok,
  if◌then◌else◌, true,
}
use p2p_file_sync.Stream.{Stream, of_list}
use p2p_file_sync.Cas.Store.{Disk, Faults}
use p2p_file_sync.Merkle.{Node}
use p2p_file_sync.Merkle.Diff.{diff}
use p2p_file_sync.Proto.{Envelope, EnvelopeError, max_message, write_envelope}
use p2p_file_sync.Proto.Envelopes.{read_envelope-write_envelope}
use p2p_file_sync.Proto.Nodes.{ProtoNode, manifest_to_node-node_to_manifest}
use p2p_file_sync.Net.{
  Protobuf, ChunkResponse, RequestError, response, message_type_manifest_response,
  handle_manifest_request, decoded_manifest, manifest_of, request_manifest,
}
use p2p_file_sync.Net.Sync.{
  new_result, returns, remote_root, after_diff, after_manifest, in_sync, sync_with_peer,
}

abbrev pub manifest_envelope : ℕ → List ℕ → Envelope
manifest_envelope id payload = record {
  envelope_type = message_type_manifest_response;
  request_id = id;
  payload = payload;
}

remote_root-handle_manifest_request :
    (tree : Option Node) → remote_root (handle_manifest_request tree) ≡ tree
unfolding remote_root handle_manifest_request
remote_root-handle_manifest_request none = refl
remote_root-handle_manifest_request (some n) = ap some (manifest_to_node-node_to_manifest n)

request_manifest-write_envelope :
    (pb : Protobuf) (marshal_envelope : Envelope → Option (List ℕ)) (id : ℕ)
    (payload body rest : List ℕ) (root : Option ProtoNode)
    → marshal_envelope (manifest_envelope id payload) ≡ some body
    → pb.envelope body ≡ some (manifest_envelope id payload)
    → pb.manifest_response payload ≡ some root
    → length body ≤ max_message
    → (bytes : List ℕ) × (write_envelope marshal_envelope message_type_manifest_response id
          (some payload)
        ≡ ok bytes)
      × (request_manifest pb (some (of_list (bytes ++ rest))) ≡ ok (response root))
unfolding request_manifest manifest_of decoded_manifest
request_manifest-write_envelope pb marshal_envelope id payload body rest root made back decoded
      small =
    let (bytes, written, read) =
      read_envelope-write_envelope marshal_envelope pb.envelope (manifest_envelope id payload) body
        rest made back small in
    (
      bytes,
      written,
      ap (λ (x : Outcome EnvelopeError (Envelope × Stream)). manifest_of pb x) read
          ∙ ap (λ (o : Option (Option ProtoNode)). decoded_manifest o) decoded,
    )

-- The answer of HandleManifestRequest for the tree of a peer, or for none, sent by WriteEnvelope, makes
-- SyncWithPeer go on with the differences between its own tree and exactly that tree, where it is not
-- in sync already, protobuf encodes the answer and its envelope and decodes what it has encoded, and
-- the encoding of the envelope has at most 16 MiB.
pub sync_with_peer-handle_manifest_request :
    (pb : Protobuf) (marshal_response : Option ProtoNode → Option (List ℕ))
    (marshal_envelope : Envelope → Option (List ℕ)) (id : ℕ) (payload body rest : List ℕ)
    (faults : ℕ → Faults) (ask : ℕ → List (List ℕ) → Outcome RequestError ChunkResponse)
    (local peer_tree : Option Node) (peer_root : Option (List ℕ)) (disk : Disk)
    → in_sync local peer_root ≡ false
    → marshal_response (handle_manifest_request peer_tree) ≡ some payload
    → pb.manifest_response payload ≡ some (handle_manifest_request peer_tree)
    → marshal_envelope (manifest_envelope id payload) ≡ some body
    → pb.envelope body ≡ some (manifest_envelope id payload)
    → length body ≤ max_message
    → (bytes : List ℕ) × (write_envelope marshal_envelope message_type_manifest_response id
          (marshal_response (handle_manifest_request peer_tree))
        ≡ ok bytes)
      × (sync_with_peer faults ask local peer_root
            (request_manifest pb (some (of_list (bytes ++ rest))))
            disk
          ≡ after_diff faults ask disk (diff local peer_tree))
unfolding sync_with_peer after_manifest
sync_with_peer-handle_manifest_request pb marshal_response marshal_envelope id payload body rest
      faults ask local peer_tree peer_root disk apart encoded decoded made back small =
    let (bytes, written, read) =
      request_manifest-write_envelope pb marshal_envelope id payload body rest
        (handle_manifest_request peer_tree) made back decoded small in
    let stream = of_list (bytes ++ rest) in
    (
      bytes,
      ap (write_envelope marshal_envelope message_type_manifest_response id) encoded ∙ written,
      ap
            (λ (b : Bool).
              if b
              then returns none
                  (record { result = record new_result { already_in_sync = true }; disk = disk })
              else after_manifest faults ask local disk (request_manifest pb (some stream)))
            apart
          ∙ ap (after_manifest faults ask local disk) read
          ∙ ap (λ (t : Option Node). after_diff faults ask disk (diff local t))
              (remote_root-handle_manifest_request peer_tree),
    )
