-- ===== src/Nat/Frames.antt =====
-- The messages of signaling.go and relay.go: a type, a length of four bytes, and a body; and the
-- strings in a body, with a length of two bytes. `string(b)` of Go keeps the bytes.
pub mod Reads
use p2p_file_sync.Prelude.{
  ℕ, ◌+◌, Bool, true, false, Option, none, some, List, [], ◌∷◌, ◌++◌, ltb, if◌then◌else◌, length,
  take, drop, get_or, Outcome, ok, err, ◌>>=◌,
}
use p2p_file_sync.Bytes.{put_u16, put_u32, get_uint}
use p2p_file_sync.Stream.{
  Stream, FullRead, read_full, complete, end_of_file, unexpected_eof, failed,
}

-- What sendError, sendConnectAck and the like write.
unfoldable pub frame : ℕ → List ℕ → List ℕ
frame msg_type body = msg_type ∷ (put_u32 (length body) ++ body)

unfoldable pub put_string : List ℕ → List ℕ
put_string s = put_u16 (length s) ++ s

-- A string at the head of a body, and what follows it.
unfoldable pub take_string : ℕ → List ℕ → Option (List ℕ × List ℕ)
take_string n rest = if ltb (length rest) n then none else some (take n rest, drop n rest)

unfoldable pub get_string : List ℕ → Option (List ℕ × List ℕ)
unfolding take_string
get_string body =
    if ltb (length body) 2 then none else take_string (get_uint (take 2 body)) (drop 2 body)

pub data FrameError : Type 0 where
  reading_header too_large reading_body : FrameError

-- io.ReadFull, with its error told apart only from nil.
unfoldable pub all_or : FrameError → FullRead → Outcome FrameError (List ℕ × Stream)
all_or e r = elim r.error [
  | complete ↦ ok (r.bytes, r.rest)
  | end_of_file ↦ err e
  | unexpected_eof ↦ err e
  | failed ↦ err e
]

-- The body, whose length has been read; a length of zero reads nothing.
unfoldable pub read_body : ℕ → ℕ → ℕ → Stream → Outcome FrameError (ℕ × List ℕ)
unfolding all_or
read_body limit msg_type msg_len s =
    if ltb limit msg_len
    then err too_large
    else all_or reading_body (read_full msg_len s) >>= λ (body, rest). ok (msg_type, body)

-- The header and the body of a message of at most `limit` bytes.
unfoldable pub read_frame : ℕ → Stream → Outcome FrameError (ℕ × List ℕ)
unfolding all_or read_body
read_frame limit s = all_or reading_header (read_full 5 s) >>= λ (header, rest).
    read_body limit (get_or header 0 0) (get_uint (drop 1 header)) rest
