-- ===== src/Net/Sync/Tests.antt =====
-- Two files of the same name, a forged chunk, an answer of the wrong type, and one with a tree.
use p2p_file_sync.Prelude.{
  Option, ℕ, ◌≡◌, ◌≢◌, refl, some, none, List, [], ◌∷◌, ◌++◌, replicate, false, arith, Outcome, ok,
  err,
}
use p2p_file_sync.Bytes.{All, text_bytes, bytes_equal}
use p2p_file_sync.Stream.{Stream, of_list, read_more}
use p2p_file_sync.Cas.Store.{Disk}
use p2p_file_sync.Cas.Store.Puts.{Consistent}
use p2p_file_sync.Cas.Store.Working.{no_faults}
use p2p_file_sync.Merkle.{Node, node, end, node_type_file, same_type, is_dir}
use p2p_file_sync.Merkle.Diff.{
  diff, diff_nodes, diff_pair, modified, find_differing_chunks, has_chunk,
}
use p2p_file_sync.Proto.{Envelope, write_envelope, read_envelope}
use p2p_file_sync.Net.{
  ProtoChunk, ChunkResponse, RequestError, opening_stream, Protobuf, handle_manifest_request,
  request_manifest,
}
use p2p_file_sync.Net.Sync.{
  State, new_result, chunks_to_fetch, store_chunks, after_diff, in_sync, sync_with_peer, panics,
}
use p2p_file_sync.Net.Sync.Wanted.{Wanted, chunks_to_fetch-diff}
use p2p_file_sync.Net.Sync.Manifests.{sync_with_peer-handle_manifest_request}
use p2p_file_sync.Net.Sync.Forged.{store_chunks-forged}
use p2p_file_sync.Net.Sync.Panics.{sync_with_peer-request_manifest}

abbrev file : ℕ → List ℕ → Node
file hash chunk =
    node
      (record {
        name = text_bytes "a";
        kind = node_type_file;
        hash = hash ∷ [];
        mode = 420;
        size = 3;
        chunks = chunk ∷ [];
      })
      end

chunks_to_fetch-diff_example :
    All
      (Wanted (some (file 1 (5 ∷ []))) (some (file 2 (6 ∷ []))))
      (chunks_to_fetch (diff (some (file 1 (5 ∷ []))) (some (file 2 (6 ∷ [])))))
chunks_to_fetch-diff_example =
    chunks_to_fetch-diff (some (file 1 (5 ∷ []))) (some (file 2 (6 ∷ []))) tt tt

-- The chunk of the local file is asked for, not that of the remote one.
asks_for_local :
    chunks_to_fetch (diff (some (file 1 (5 ∷ []))) (some (file 2 (6 ∷ [])))) ≡ (5 ∷ []) ∷ []
unfolding chunks_to_fetch diff diff_nodes diff_pair modified find_differing_chunks has_chunk
    bytes_equal same_type is_dir
asks_for_local = refl

abbrev hash : List ℕ
hash = replicate 32 7

abbrev forged : ProtoChunk
forged = record { hash = hash; content = text_bytes "x"; size = 1 }

abbrev empty : Disk
empty path = none

abbrev start : State
start = record { result = new_result; disk = empty }

-- A hash of which the content differs.
abbrev sha256 : List ℕ → List ℕ
sha256 content = replicate 32 8

differs : sha256 forged.content ≢ hash
differs e = cc

store_chunks-forged_example :
    ((store_chunks (λ n. no_faults) (forged ∷ []) start).0 ≡ none)
    × (¬ Consistent sha256 (store_chunks (λ n. no_faults) (forged ∷ []) start).1.disk)
store_chunks-forged_example =
    store_chunks-forged sha256 (λ n. no_faults) forged start (λ n. refl) (refl, omega arith) refl
      differs

abbrev other_message : Envelope
other_message = record { envelope_type = 6; request_id = 1; payload = [] }

abbrev encoding : Protobuf
encoding = record {
  envelope = λ bytes. some other_message;
  chunk_response = λ payload. none;
  manifest_response = λ payload. none;
}

abbrev answer : Stream
answer = of_list (0 ∷ 0 ∷ 0 ∷ 1 ∷ 9 ∷ [])

abbrev ask : ℕ → List (List ℕ) → Outcome RequestError ChunkResponse
ask n batch = err opening_stream

read : read_envelope encoding.envelope answer ≡ ok (other_message, of_list [])
unfolding read_envelope read_more
read = refl

apart : in_sync none none ≡ false
unfolding in_sync
apart = refl

sync_with_peer-request_manifest_example :
    sync_with_peer (λ n. no_faults) ask none none (request_manifest encoding (some answer)) empty
    ≡ panics
sync_with_peer-request_manifest_example =
    sync_with_peer-request_manifest (λ n. no_faults) ask none none encoding answer (of_list [])
      other_message empty apart read (λ e. absurd (omega arith))

-- An encoding in which the payload stands for the tree of one file.
abbrev peer_tree : Option Node
peer_tree = some (file 2 (6 ∷ []))

abbrev marshal : Envelope → Option (List ℕ)
marshal e = some (e.envelope_type ∷ e.request_id ∷ e.payload)

abbrev unmarshal : List ℕ → Option Envelope
unmarshal [] = none
unmarshal (t ∷ []) = none
unmarshal (t ∷ id ∷ payload) =
    some (record { envelope_type = t; request_id = id; payload = payload })

abbrev tree_encoding : Protobuf
tree_encoding = record {
  envelope = unmarshal;
  chunk_response = λ payload. none;
  manifest_response = λ payload. some (handle_manifest_request peer_tree);
}

sync_with_peer-handle_manifest_request_example :
    (bytes : List ℕ) × (write_envelope marshal 4 1 (some (7 ∷ [])) ≡ ok bytes)
    × (sync_with_peer
          (λ n. no_faults)
          ask
          none
          none
          (request_manifest tree_encoding (some (of_list (bytes ++ (9 ∷ [])))))
          empty
        ≡ after_diff (λ n. no_faults) ask empty (diff none peer_tree))
sync_with_peer-handle_manifest_request_example =
    sync_with_peer-handle_manifest_request tree_encoding (λ root. some (7 ∷ [])) marshal 1 (7 ∷ [])
      (4 ∷ 1 ∷ 7 ∷ []) (9 ∷ []) (λ n. no_faults) ask none peer_tree none empty apart refl refl refl
      refl (omega arith)
