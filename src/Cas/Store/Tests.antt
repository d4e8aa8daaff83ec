-- ===== src/Cas/Store/Tests.antt =====
-- A put into an empty store, one that succeeds and one whose rename fails. The hash gives every content the same value.
use p2p_file_sync.Prelude.{
  ◌≢◌, ◌%◌, ◌^◌, length, ℕ, ◌≡◌, refl, Bool, true, false, none, List, [], ◌∷◌, ◌++◌, some, ok,
  arith,
}
use p2p_file_sync.Bytes.{All, IsByte, All-append}
use p2p_file_sync.Cas.Chunker.{Chunk}
use p2p_file_sync.Cas.Store.{
  Disk, Faults, put, get, has, verify, delete, stat, write_chunk, publish,
}
use p2p_file_sync.Cas.Store.Reads.{get-put, has-delete, no_read_faults}
use p2p_file_sync.Cas.Store.Paths.{IsHash, path_of}
use p2p_file_sync.Cas.Store.Puts.{Atomic, Consistent, put-Atomic, put-Consistent}

abbrev eight : List ℕ
eight = 1 ∷ 2 ∷ 3 ∷ 4 ∷ 250 ∷ 251 ∷ 252 ∷ 253 ∷ []

abbrev hash : List ℕ
hash = eight ++ eight ++ eight ++ eight

abbrev constant : List ℕ → List ℕ
constant bytes = hash

abbrev chunk : Chunk
chunk = record { hash = hash; size = 2; content = 7 ∷ 8 ∷ [] }

abbrev empty : Disk
empty path = none

abbrev rename_fault : Faults
rename_fault = record {
  stat_fails = false;
  mkdir_fails = false;
  open_fails = false;
  write_fails = false;
  flush_fails = false;
  close_fails = false;
  rename_fails = true;
  remove_fails = true;
  left_behind = [];
}

eight-bytes : All IsByte eight
eight-bytes = (
  omega arith,
  (
    omega arith,
    (omega arith, (omega arith, (omega arith, (omega arith, (omega arith, (omega arith, tt)))))),
  ),
)

abbrev no_fault : Faults
no_fault = record rename_fault { rename_fails = false; remove_fails = false }

hash-IsHash : IsHash hash
hash-IsHash = (
  refl,
  All-append IsByte eight (eight ++ (eight ++ eight)) eight-bytes (
      All-append IsByte eight (eight ++ eight) eight-bytes
        (All-append IsByte eight eight eight-bytes eight-bytes)),
)

put-Atomic_example : Atomic hash (7 ∷ 8 ∷ []) empty (put rename_fault chunk empty)
put-Atomic_example = put-Atomic rename_fault chunk empty hash-IsHash

empty-Consistent : Consistent constant empty
empty-Consistent h c is at = cc

put-Consistent_example :
    Consistent constant (put no_fault chunk empty).1
    × ((b : Bool)
        → (put no_fault chunk empty).0 ≡ ok b
        → (c : List ℕ) × ((put no_fault chunk empty).1 (path_of hash) ≡ some c)
          × (constant c ≡ hash))
put-Consistent_example =
    put-Consistent constant no_fault chunk empty hash-IsHash refl empty-Consistent

put_run : (put no_fault chunk empty).0 ≡ ok true
unfolding put stat write_chunk publish
put_run = refl

get-put_example :
    (c : List ℕ) × (constant c ≡ hash)
    × (has false hash (put no_fault chunk empty).1 ≡ true)
    × (get no_read_faults hash (put no_fault chunk empty).1
        ≡ ok (record { hash = hash; size = length c % 2 ^ 32; content = c }))
    × (verify constant no_read_faults hash (put no_fault chunk empty).1 ≡ ok tt)
get-put_example =
    get-put constant no_fault chunk empty true hash-IsHash refl empty-Consistent put_run

has-delete_example :
    ((delete false hash (put no_fault chunk empty).1).0 ≡ true)
    × (has false hash (delete false hash (put no_fault chunk empty).1).1 ≡ false)
    × ((h : List ℕ)
        → IsHash h
        → h ≢ hash
        → (delete false hash (put no_fault chunk empty).1).1 (path_of h)
          ≡ (put no_fault chunk empty).1 (path_of h))
has-delete_example = has-delete false hash (put no_fault chunk empty).1 hash-IsHash
