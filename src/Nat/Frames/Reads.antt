-- ===== src/Nat/Frames/Reads.antt =====
-- What is written as a message, or as a string, is read back.
use p2p_file_sync.Prelude.{
  ℕ, ◌+◌, ◌≤◌, ◌<◌, ◌^◌, ◌≡◌, refl, ap, ap₂, ◌∙◌, false, some, List, ◌∷◌, ◌++◌, arith, ltb, length,
  length-append, get_or, take, drop, take-append, drop-append, Outcome, ok, ◌>>=◌,
}
use p2p_file_sync.Bytes.{put_u32, get_uint, get_uint-put_u16, get_uint-put_u32}
use p2p_file_sync.Stream.{Stream, of_list, read_full, read_more_lem, read_end-complete, ReadError}
use p2p_file_sync.Nat.Frames.{
  frame, put_string, take_string, get_string, FrameError, reading_header, reading_body, all_or,
  read_body, read_frame,
}

pub at_least : (a b : ℕ) → b ≤ a → ltb a b ≡ false
at_least a b h = ground arith

pub take_string-append : (s rest : List ℕ) → take_string (length s) (s ++ rest) ≡ some (s, rest)
unfolding take_string
take_string-append s rest =
    rw (at_least (length (s ++ rest)) (length s) (omega (arith, length-append s rest))) (
      ap₂ (λ (a b : List ℕ). some (a, b)) (take-append (length s) s rest refl)
        (drop-append (length s) s rest refl))

pub get_string-put_string :
    (s rest : List ℕ) → length s < 2 ^ 16 → get_string (put_string s ++ rest) ≡ some (s, rest)
unfolding get_string put_string
get_string-put_string s rest h = rw (at_least (length (put_string s ++ rest)) 2 (omega arith)) (
    ap (λ (n : ℕ). take_string n (s ++ rest)) (get_uint-put_u16 (length s) h)
    ∙ take_string-append s rest)

pub length-put_string : (s : List ℕ) → length (put_string s) ≡ 2 + length s
unfolding put_string
length-put_string s = omega arith

-- io.ReadFull of what is there.
pub all_or-read_full :
    (e : FrameError) (n : ℕ) (xs ys : List ℕ)
    → length xs ≡ n
    → all_or e (read_full n (of_list (xs ++ ys))) ≡ ok (xs, of_list ys)
unfolding all_or
all_or-read_full e n xs ys h =
    ap (all_or e) (
      read_more_lem n 0 (xs ++ ys)
      ∙ ap
          (λ (t : ReadError). record {
            bytes = take n (xs ++ ys);
            error = t;
            rest = of_list (drop n (xs ++ ys));
          })
          (read_end-complete n 0 (length (xs ++ ys)) (omega (arith, length-append xs ys))))
    ∙ ap₂ (λ (a b : List ℕ). ok (a, of_list b)) (take-append n xs ys h) (drop-append n xs ys h)

not_over : (a b : ℕ) → b ≤ a → ltb a b ≡ false
not_over a b h = ground arith

-- A message of at most `limit` bytes is read back, whatever follows it on the connection.
pub read_frame-frame :
    (limit msg_type : ℕ) (body rest : List ℕ)
    → limit < 2 ^ 32
    → length body ≤ limit
    → read_frame limit (of_list (frame msg_type body ++ rest)) ≡ ok (msg_type, body)
unfolding read_frame frame read_body
read_frame-frame limit msg_type body rest small h =
    let header : List ℕ = msg_type ∷ put_u32 (length body) in
    ap
      (λ (t : Outcome FrameError (List ℕ × Stream)).
        t >>= λ (x, r). read_body limit (get_or x 0 0) (get_uint (drop 1 x)) r)
      (all_or-read_full reading_header 5 header (body ++ rest) refl)
    ∙ ap (λ (n : ℕ). read_body limit msg_type n (of_list (body ++ rest)))
        (get_uint-put_u32 (length body) (omega arith))
    ∙ rw (not_over limit (length body) h) (
        ap (λ (t : Outcome FrameError (List ℕ × Stream)). t >>= λ (b, r). ok (msg_type, b))
          (all_or-read_full reading_body (length body) body rest refl))
