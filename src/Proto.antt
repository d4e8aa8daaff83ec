-- ===== src/Proto.antt =====
-- internal/proto/messages.go: the framing of envelopes, and the messages that the other parts read.
-- The generated encoding of protobuf is a parameter.
pub mod Envelopes
pub mod Nodes
mod Tests
use p2p_file_sync.Prelude.{
  ℕ, ◌*◌, Option, none, some, List, [], ◌∷◌, ◌++◌, ltb, if◌then◌else◌, length, Outcome, ok, err,
  ◌>>=◌,
}
use p2p_file_sync.Bytes.{put_u32, get_uint}
use p2p_file_sync.Stream.{
  Stream, FullRead, read_full, complete, end_of_file, unexpected_eof, failed,
}

-- Envelope
pub record Envelope : Type 0 where
  pub envelope_type : ℕ
  pub request_id : ℕ
  pub payload : List ℕ

pub data EnvelopeError : Type 0 where
  marshaling_payload marshaling_envelope reading_length reading_envelope unmarshaling_envelope :
      EnvelopeError
  message_too_large : ℕ → EnvelopeError

-- "16MB max message size"
abbrev pub max_message : ℕ
max_message = 16 * 1024 * 1024

-- A call of proto.Marshal, with its error.
unfoldable pub marshaled : EnvelopeError → Option (List ℕ) → Outcome EnvelopeError (List ℕ)
marshaled e none = err e
marshaled e (some bytes) = ok bytes

-- WriteEnvelope: the bytes that reach a writer which does not fail. `marshal` is proto.Marshal of
-- the message, and `marshal_envelope` that of an envelope.
unfoldable pub write_envelope :
    (Envelope → Option (List ℕ)) → ℕ → ℕ → Option (List ℕ) → Outcome EnvelopeError (List ℕ)
unfolding marshaled
write_envelope marshal_envelope msg_type request_id payload =
    marshaled marshaling_payload payload >>= λ bytes.
    marshaled marshaling_envelope (
      marshal_envelope
        (record { envelope_type = msg_type; request_id = request_id; payload = bytes }))
    >>= λ body. ok (put_u32 (length body) ++ body)

-- io.ReadFull with its error.
unfoldable pub read_or : EnvelopeError → FullRead → Outcome EnvelopeError (List ℕ × Stream)
read_or e r = elim r.error [
  | complete ↦ ok (r.bytes, r.rest)
  | end_of_file ↦ err e
  | unexpected_eof ↦ err e
  | failed ↦ err e
]

unfoldable pub unmarshaled : Option Envelope → Stream → Outcome EnvelopeError (Envelope × Stream)
unmarshaled none rest = err unmarshaling_envelope
unmarshaled (some e) rest = ok (e, rest)

-- ReadEnvelope behind the length.
unfoldable pub read_payload :
    (List ℕ → Option Envelope) → ℕ → Stream → Outcome EnvelopeError (Envelope × Stream)
unfolding read_or unmarshaled
read_payload unmarshal n s =
    if ltb max_message n
    then err (message_too_large n)
    else read_or reading_envelope (read_full n s) >>= λ (bytes, rest).
        unmarshaled (unmarshal bytes) rest

-- ReadEnvelope: the envelope, and what the reader has left.
unfoldable pub read_envelope :
    (List ℕ → Option Envelope) → Stream → Outcome EnvelopeError (Envelope × Stream)
unfolding read_or read_payload
read_envelope unmarshal s = read_or reading_length (read_full 4 s) >>= λ (prefix, rest).
    read_payload unmarshal (get_uint prefix) rest
