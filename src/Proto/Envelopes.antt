-- ===== src/Proto/Envelopes.antt =====
-- An envelope that is written is read back, and what follows it stays in the reader.
use p2p_file_sync.Prelude.{
  ℕ, ◌≤◌, ◌≡◌, refl, ap, ap₂, ◌∙◌, false, Option, some, List, ◌++◌, arith, ltb, length,
  length-append, take, drop, take-append, drop-append, Outcome, ok, ◌>>=◌,
}
use p2p_file_sync.Bytes.{put_u32, get_uint, get_uint-put_u32}
use p2p_file_sync.Stream.{Stream, ReadError, of_list, read_full, read_more_lem, read_end-complete}
use p2p_file_sync.Proto.{
  Envelope, EnvelopeError, reading_length, reading_envelope, max_message, marshaled, write_envelope,
  read_or, unmarshaled, read_payload, read_envelope,
}

read_or-read_full :
    (e : EnvelopeError) (n : ℕ) (xs ys : List ℕ)
    → length xs ≡ n
    → read_or e (read_full n (of_list (xs ++ ys))) ≡ ok (xs, of_list ys)
unfolding read_or
read_or-read_full e n xs ys h =
    ap (read_or e) (
      read_more_lem n 0 (xs ++ ys)
      ∙ ap
          (λ (t : ReadError). record {
            bytes = take n (xs ++ ys);
            error = t;
            rest = of_list (drop n (xs ++ ys));
          })
          (read_end-complete n 0 (length (xs ++ ys)) (omega (arith, length-append xs ys))))
    ∙ ap₂ (λ (a b : List ℕ). ok (a, of_list b)) (take-append n xs ys h) (drop-append n xs ys h)

not_over : (a b : ℕ) → b ≤ a → ltb a b ≡ false
not_over a b h = ground arith

-- ReadEnvelope gives back the type, the request ID and the payload that WriteEnvelope was given, and
-- leaves what follows in the reader, for an encoding of at most 16 MiB that protobuf decodes again.
pub read_envelope-write_envelope :
    (marshal_envelope : Envelope → Option (List ℕ)) (unmarshal : List ℕ → Option Envelope)
    (env : Envelope) (body rest : List ℕ)
    → marshal_envelope env ≡ some body
    → unmarshal body ≡ some env
    → length body ≤ max_message
    → (bytes : List ℕ) × (write_envelope marshal_envelope env.envelope_type env.request_id
          (some env.payload)
        ≡ ok bytes)
      × (read_envelope unmarshal (of_list (bytes ++ rest)) ≡ ok (env, of_list rest))
unfolding write_envelope marshaled read_envelope read_payload unmarshaled
read_envelope-write_envelope marshal_envelope unmarshal env body rest made back h = (
  put_u32 (length body) ++ body,
  ap
      (λ (o : Option (List ℕ)).
        marshaled EnvelopeError.marshaling_envelope o >>= λ b. ok (put_u32 (length b) ++ b))
      made,
  ap
        (λ (x : Outcome EnvelopeError (List ℕ × Stream)).
          x >>= λ (prefix, r). read_payload unmarshal (get_uint prefix) r)
        (read_or-read_full reading_length 4 (put_u32 (length body)) (body ++ rest) refl)
      ∙ ap (λ (n : ℕ). read_payload unmarshal n (of_list (body ++ rest)))
          (get_uint-put_u32 (length body) (omega arith))
      ∙ rw (not_over max_message (length body) h) (
          ap
            (λ (x : Outcome EnvelopeError (List ℕ × Stream)).
              x >>= λ (bytes, r). unmarshaled (unmarshal bytes) r)
            (read_or-read_full reading_envelope (length body) body rest refl)
          ∙ ap (λ (o : Option Envelope). unmarshaled o (of_list rest)) back),
)
