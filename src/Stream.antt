-- ===== src/Stream.antt =====
-- What the program uses of io.Reader: one byte at a time (bufio.Reader.ReadByte, for which the
-- constructors serve), and io.ReadFull into a buffer.
use p2p_file_sync.Prelude.{
  ℕ, zero, suc, ◌+◌, ◌≤◌, ◌<◌, arith, ◌≡◌, refl, ap, List, [], ◌∷◌, length, take, drop,
}

-- The bytes that a reader has left, up to the end of the file or up to a read error.
pub data Stream : Type 0 where
  eof : Stream
  fault : Stream
  byte : ℕ → Stream → Stream

abbrev pub of_list : List ℕ → Stream
of_list [] = eof
of_list (b ∷ bs) = byte b (of_list bs)

abbrev pub stream_length : Stream → ℕ
stream_length eof = 0
stream_length fault = 0
stream_length (byte b r) = suc (stream_length r)

-- The error of io.ReadFull: nil, io.EOF, io.ErrUnexpectedEOF, or the reader's own.
pub data ReadError : Type 0 where
  complete end_of_file unexpected_eof failed : ReadError

pub record FullRead : Type 0 where
  pub bytes : List ℕ
  pub error : ReadError
  pub rest : Stream

-- io.ReadFull into `n` bytes, of which `got` are read before.
unfoldable pub read_more : ℕ → ℕ → Stream → FullRead
read_more zero got s = record { bytes = []; error = complete; rest = s }
read_more (suc n) got fault = record { bytes = []; error = failed; rest = fault }
read_more (suc n) zero eof = record { bytes = []; error = end_of_file; rest = eof }
read_more (suc n) (suc got) eof = record { bytes = []; error = unexpected_eof; rest = eof }
read_more (suc n) got (byte b r) =
    let more = read_more n (suc got) r in record more { bytes = b ∷ more.bytes }

abbrev pub read_full : ℕ → Stream → FullRead
read_full n s = read_more n 0 s

-- How a read that wants `n` bytes ends, if `have` are there and `got` were read before.
abbrev pub read_end : ℕ → ℕ → ℕ → ReadError
read_end zero got have = complete
read_end (suc n) got (suc have) = read_end n (suc got) have
read_end (suc n) zero zero = end_of_file
read_end (suc n) (suc got) zero = unexpected_eof

-- Without a read error, io.ReadFull takes the next `n` bytes, or all that there are.
pub read_more_lem :
    (n got : ℕ) (bs : List ℕ)
    → read_more n got (of_list bs)
      ≡ record { bytes = take n bs; error = read_end n got (length bs); rest = of_list (drop n bs) }
unfolding read_more
read_more_lem zero got bs = refl
read_more_lem (suc n) zero [] = refl
read_more_lem (suc n) (suc got) [] = refl
read_more_lem (suc n) zero (b ∷ bs) =
    ap (λ (r : FullRead). record r { bytes = b ∷ r.bytes }) (read_more_lem n 1 bs)
read_more_lem (suc n) (suc got) (b ∷ bs) =
    ap (λ (r : FullRead). record r { bytes = b ∷ r.bytes }) (read_more_lem n (suc (suc got)) bs)

pub stream_length-of_list : (bs : List ℕ) → stream_length (of_list bs) ≡ length bs
stream_length-of_list [] = refl
stream_length-of_list (b ∷ bs) = ap suc (stream_length-of_list bs)

-- io.ReadFull reports nil exactly where the buffer is filled.
pub read_end-complete : (n got have : ℕ) → n ≤ have → read_end n got have ≡ complete
read_end-complete zero got have h = refl
read_end-complete (suc n) got zero h = absurd (omega arith)
read_end-complete (suc n) zero (suc have) h = read_end-complete n 1 have (omega arith)
read_end-complete (suc n) (suc got) (suc have) h =
    read_end-complete n (suc (suc got)) have (omega arith)

pub read_end-short :
    (n got have : ℕ) → have < n → 0 < got + have → read_end n got have ≡ unexpected_eof
read_end-short zero got have h k = absurd (omega arith)
read_end-short (suc n) zero zero h k = absurd (omega arith)
read_end-short (suc n) (suc got) zero h k = refl
read_end-short (suc n) zero (suc have) h k = read_end-short n 1 have (omega arith) (omega arith)
read_end-short (suc n) (suc got) (suc have) h k =
    read_end-short n (suc (suc got)) have (omega arith) (omega arith)
