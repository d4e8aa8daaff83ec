-- ===== src/Net.antt =====
-- internal/net: the requests for chunks and for the manifest, on both sides. The streams of a QUIC
-- connection carry bytes; what protobuf makes of them is a parameter.
pub mod Served
pub mod Sync
pub mod Replies
use p2p_file_sync.Prelude.{
  ℕ, ◌+◌, Option, none, some, List, [], ◌∷◌, ◌==◌, if◌then◌else◌, Outcome, ok, err, ◌>>=◌,
}
use p2p_file_sync.Stream.{Stream}
use p2p_file_sync.Cas.Chunker.{Chunk}
use p2p_file_sync.Cas.Store.{Disk, ReadFaults, GetError, get}
use p2p_file_sync.Proto.{Envelope, EnvelopeError, read_envelope}
use p2p_file_sync.Merkle.{Node}
use p2p_file_sync.Proto.Nodes.{ProtoNode, node_to_manifest}

-- Chunk and ChunkResponse of the protocol.
pub record ProtoChunk : Type 0 where
  pub hash : List ℕ
  pub content : List ℕ
  pub size : ℕ

pub record ChunkResponse : Type 0 where
  pub chunks : List ProtoChunk
  pub not_found : List (List ℕ)

abbrev pub message_type_manifest_response : ℕ
message_type_manifest_response = 4

abbrev pub message_type_chunk_response : ℕ
message_type_chunk_response = 6

-- SyncManager.HandleChunkRequest. `faults` tells which calls fail in the Get of a hash.
unfoldable pub add_answer : List ℕ → Outcome GetError Chunk → ChunkResponse → ChunkResponse
add_answer hash (err e) rest = record rest { not_found = hash ∷ rest.not_found }
add_answer hash (ok chunk) rest = record rest {
  chunks = record { hash = chunk.hash; content = chunk.content; size = chunk.size } ∷ rest.chunks;
}

unfoldable pub handle_chunk_request : (List ℕ → ReadFaults) → Disk → List (List ℕ) → ChunkResponse
unfolding add_answer
handle_chunk_request faults disk [] = record { chunks = []; not_found = [] }
handle_chunk_request faults disk (hash ∷ hashes) =
    add_answer hash (get (faults hash) hash disk) (handle_chunk_request faults disk hashes)

-- SyncManager.HandleManifestRequest: the root of the response, which is nil without a tree.
unfoldable pub handle_manifest_request : Option Node → Option ProtoNode
unfolding node_to_manifest
handle_manifest_request none = none
handle_manifest_request (some root) = some (node_to_manifest root)

-- proto.Unmarshal, of the three messages that are read.
pub record Protobuf : Type 0 where
  pub envelope : List ℕ → Option Envelope
  pub chunk_response : List ℕ → Option ChunkResponse
  pub manifest_response : List ℕ → Option (Option ProtoNode)

pub data RequestError : Type 0 where
  opening_stream : RequestError
  reading_response : EnvelopeError → RequestError
  unexpected_response : ℕ → RequestError
  decoding_response : RequestError

unfoldable pub decoded_chunks : Option ChunkResponse → Outcome RequestError ChunkResponse
decoded_chunks none = err decoding_response
decoded_chunks (some response) = ok response

unfoldable pub chunks_of :
    Protobuf → Outcome EnvelopeError (Envelope × Stream) → Outcome RequestError ChunkResponse
unfolding decoded_chunks
chunks_of pb (err e) = err (reading_response e)
chunks_of pb (ok (env, rest)) =
    if env.envelope_type == message_type_chunk_response
    then decoded_chunks (pb.chunk_response env.payload)
    else err (unexpected_response env.envelope_type)

-- Transport.RequestChunks: the stream is what the peer answers, or `none` where no stream is opened
-- or the request is not sent.
unfoldable pub request_chunks : Protobuf → Option Stream → Outcome RequestError ChunkResponse
unfolding chunks_of
request_chunks pb none = err opening_stream
request_chunks pb (some s) = chunks_of pb (read_envelope pb.envelope s)

-- What requestManifest of the SyncManager returns without an error: nil, or a response with its root.
pub data ManifestResponse : Type 0 where
  no_response : ManifestResponse
  response : Option ProtoNode → ManifestResponse

unfoldable pub decoded_manifest : Option (Option ProtoNode) → Outcome RequestError ManifestResponse
decoded_manifest none = err decoding_response
decoded_manifest (some root) = ok (response root)

-- Where the type is another, `return nil, err` returns the error of the reading, which is nil.
unfoldable pub manifest_of :
    Protobuf → Outcome EnvelopeError (Envelope × Stream) → Outcome RequestError ManifestResponse
unfolding decoded_manifest
manifest_of pb (err e) = err (reading_response e)
manifest_of pb (ok (env, rest)) =
    if env.envelope_type == message_type_manifest_response
    then decoded_manifest (pb.manifest_response env.payload)
    else ok no_response

unfoldable pub request_manifest : Protobuf → Option Stream → Outcome RequestError ManifestResponse
unfolding manifest_of
request_manifest pb none = err opening_stream
request_manifest pb (some s) = manifest_of pb (read_envelope pb.envelope s)
