-- ===== src/Cas/Store/Reads.antt =====
-- What the reading operations find of a chunk that was put.
use p2p_file_sync.Prelude.{
  ℕ, ◌≢◌, ◌∙◌, sym, inl, inr, Option-cases, ◌%◌, ◌^◌, ◌≡◌, refl, ap, true, false, Bool, Option,
  some, none, List, length, ok, ◌>>=◌, if◌then◌else◌,
}
use p2p_file_sync.Bytes.{bytes_equal_refl}
use p2p_file_sync.Cas.Chunker.{Chunk}
use p2p_file_sync.Cas.Store.{
  Disk, Faults, put, ReadFaults, read_chunk, get, has, verify, stat, delete, update,
}
use p2p_file_sync.Cas.Store.Paths.{IsHash, path_of, path_of_inj}
use p2p_file_sync.Cas.Store.Puts.{Consistent, put-Consistent, update_self, update_other}

abbrev pub no_read_faults : ReadFaults
no_read_faults = record { opening = false; sizing = false; reading = false }

pub get-at :
    (hash c : List ℕ) (disk : Disk)
    → disk (path_of hash) ≡ some c
    → get no_read_faults hash disk
      ≡ ok (record { hash = hash; size = length c % 2 ^ 32; content = c })
unfolding get read_chunk
get-at hash c disk e =
    ap
      (λ (o : Option (List ℕ)). read_chunk no_read_faults o >>= λ content.
        ok (record { hash = hash; size = length content % 2 ^ 32; content = content }))
      e

has-at : (hash c : List ℕ) (disk : Disk) → disk (path_of hash) ≡ some c → has false hash disk ≡ true
unfolding has stat
has-at hash c disk e = ap (stat false) e

verify-at :
    (sha256 : List ℕ → List ℕ) (hash c : List ℕ) (disk : Disk)
    → disk (path_of hash) ≡ some c
    → sha256 c ≡ hash
    → verify sha256 no_read_faults hash disk ≡ ok tt
unfolding verify read_chunk
verify-at sha256 hash c disk e same = rw (e, same, bytes_equal_refl hash) refl

-- After a Put that returns no error of a chunk with the hash of its content, 32 bytes, into a store
-- whose chunk files have the contents that they are named for, and where no further call fails: Has
-- finds the chunk, Get returns content of the same hash, with its length in 32 bits, and Verify
-- returns no error.
pub get-put :
    (sha256 : List ℕ → List ℕ) (f : Faults) (chunk : Chunk) (disk : Disk) (b : Bool)
    → IsHash chunk.hash
    → sha256 chunk.content ≡ chunk.hash
    → Consistent sha256 disk
    → (put f chunk disk).0 ≡ ok b
    → (c : List ℕ) × (sha256 c ≡ chunk.hash)
      × (has false chunk.hash (put f chunk disk).1 ≡ true)
      × (get no_read_faults chunk.hash (put f chunk disk).1
          ≡ ok (record { hash = chunk.hash; size = length c % 2 ^ 32; content = c }))
      × (verify sha256 no_read_faults chunk.hash (put f chunk disk).1 ≡ ok tt)
get-put sha256 f chunk disk b is_hash honest old done =
    let (later, found) = put-Consistent sha256 f chunk disk is_hash honest old in
    let (c, at, same) = found b done in
    (
      c,
      same,
      has-at chunk.hash c (put f chunk disk).1 at,
      get-at chunk.hash c (put f chunk disk).1 at,
      verify-at sha256 chunk.hash c (put f chunk disk).1 at same,
    )

delete_missing :
    (b : Bool) (hash : List ℕ) (disk : Disk)
    → disk (path_of hash) ≡ none
    → delete b hash disk ≡ (if b then (false, disk) else (true, disk))
unfolding delete
delete_missing b hash disk e = rw (e, delete) refl

delete_present :
    (b : Bool) (hash c : List ℕ) (disk : Disk)
    → disk (path_of hash) ≡ some c
    → delete b hash disk ≡ (if b then (false, disk) else (true, update (path_of hash) none disk))
unfolding delete
delete_present b hash c disk e = rw (e, delete) refl

has-none :
    (b : Bool) (hash : List ℕ) (disk : Disk) → disk (path_of hash) ≡ none → has b hash disk ≡ false
unfolding has stat
has-none true hash disk e = refl
has-none false hash disk e = ap (stat false) e

-- Delete of a hash of 32 bytes, where the file can be removed, returns no error, whether or not the
-- chunk was there; Has does not find the chunk afterwards, and the file of every other hash is as
-- before.
pub has-delete :
    (b : Bool) (hash : List ℕ) (disk : Disk)
    → IsHash hash
    → ((delete false hash disk).0 ≡ true)
      × (has b hash (delete false hash disk).1 ≡ false)
      × ((h : List ℕ)
          → IsHash h
          → h ≢ hash
          → (delete false hash disk).1 (path_of h) ≡ disk (path_of h))
has-delete b hash disk is_hash = elim (Option-cases (disk (path_of hash))) [
  | inl e ↦
      let out = delete_missing false hash disk e in
      (
        ap (λ (t : Bool × Disk). t.0) out,
        has-none b hash (delete false hash disk).1
            (ap (λ (t : Bool × Disk). t.1 (path_of hash)) out ∙ e),
        λ h k other. ap (λ (t : Bool × Disk). t.1 (path_of h)) out,
      )
  | inr (c, e) ↦
      let out = delete_present false hash c disk e in
      (
        ap (λ (t : Bool × Disk). t.0) out,
        has-none b hash (delete false hash disk).1 (
            ap (λ (t : Bool × Disk). t.1 (path_of hash)) out
            ∙ update_self (path_of hash) none disk),
        λ h k other.
            ap (λ (t : Bool × Disk). t.1 (path_of h)) out
            ∙ update_other (path_of hash) (path_of h) none disk
                (λ p. other (sym (path_of_inj hash h is_hash k p))),
      )
]
