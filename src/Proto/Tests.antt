-- ===== src/Proto/Tests.antt =====
-- An envelope in an encoding of three fields.
use p2p_file_sync.Prelude.{ℕ, ◌≡◌, refl, Option, some, none, List, [], ◌∷◌, ◌++◌, arith, ok}
use p2p_file_sync.Bytes.{text_bytes}
use p2p_file_sync.Stream.{of_list}
use p2p_file_sync.Proto.{Envelope, write_envelope, read_envelope}
use p2p_file_sync.Proto.Envelopes.{read_envelope-write_envelope}

-- The type, the request ID and the payload, a byte each for the first two.
abbrev marshal : Envelope → Option (List ℕ)
marshal e = some (e.envelope_type ∷ e.request_id ∷ e.payload)

abbrev unmarshal : List ℕ → Option Envelope
unmarshal [] = none
unmarshal (t ∷ []) = none
unmarshal (t ∷ id ∷ payload) =
    some (record { envelope_type = t; request_id = id; payload = payload })

abbrev ping : Envelope
ping = record { envelope_type = 3; request_id = 1; payload = text_bytes "hi" }

read_envelope-write_envelope_example :
    (bytes : List ℕ) × (write_envelope marshal 3 1 (some (text_bytes "hi")) ≡ ok bytes)
    × (read_envelope unmarshal (of_list (bytes ++ (9 ∷ []))) ≡ ok (ping, of_list (9 ∷ [])))
read_envelope-write_envelope_example =
    read_envelope-write_envelope marshal unmarshal ping (3 ∷ 1 ∷ text_bytes "hi") (9 ∷ []) refl refl
      (omega arith)
