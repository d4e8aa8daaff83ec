-- ===== src/Net/Replies.antt =====
-- What RequestChunks makes of a response that a peer has written.
use p2p_file_sync.Prelude.{ℕ, ◌≤◌, ◌≡◌, ap, ◌∙◌, Option, some, List, ◌++◌, length, Outcome, ok}
use p2p_file_sync.Stream.{Stream, of_list}
use p2p_file_sync.Proto.{Envelope, EnvelopeError, max_message, write_envelope}
use p2p_file_sync.Proto.Envelopes.{read_envelope-write_envelope}
use p2p_file_sync.Net.{
  Protobuf, ChunkResponse, message_type_chunk_response, decoded_chunks, chunks_of, request_chunks,
}

abbrev pub chunk_envelope : ℕ → List ℕ → Envelope
chunk_envelope id payload = record {
  envelope_type = message_type_chunk_response;
  request_id = id;
  payload = payload;
}

-- RequestChunks returns the response that the peer has sent by WriteEnvelope, where protobuf decodes
-- what it has encoded, and the encoding of the envelope has at most 16 MiB.
pub request_chunks-write_envelope :
    (pb : Protobuf) (marshal_envelope : Envelope → Option (List ℕ)) (id : ℕ)
    (payload body rest : List ℕ) (response : ChunkResponse)
    → marshal_envelope (chunk_envelope id payload) ≡ some body
    → pb.envelope body ≡ some (chunk_envelope id payload)
    → pb.chunk_response payload ≡ some response
    → length body ≤ max_message
    → (bytes : List ℕ) × (write_envelope marshal_envelope message_type_chunk_response id
          (some payload)
        ≡ ok bytes)
      × (request_chunks pb (some (of_list (bytes ++ rest))) ≡ ok response)
unfolding request_chunks chunks_of decoded_chunks
request_chunks-write_envelope pb marshal_envelope id payload body rest response made back decoded
      small =
    let (bytes, written, read) =
      read_envelope-write_envelope marshal_envelope pb.envelope (chunk_envelope id payload) body
        rest made back small in
    (
      bytes,
      written,
      ap (λ (x : Outcome EnvelopeError (Envelope × Stream)). chunks_of pb x) read
          ∙ ap (λ (o : Option ChunkResponse). decoded_chunks o) decoded,
    )
