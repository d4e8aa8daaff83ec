-- ===== src/Cas/Store/Puts.antt =====
-- BlobStore.Put is atomic: it stores the whole chunk, or changes no chunk.
use p2p_file_sync.Prelude.{
  ℕ, ◌≡◌, ◌≢◌, refl, ap, sym, ◌∙◌, ◌⊎◌, inl, inr, Bool, true, false, Bool-cases, Option, none, some,
  some-cancel, List, ok≢err, Outcome, ok, err, if-cases,
}
use p2p_file_sync.Bytes.{bytes_equal, bytes_equal_refl, bytes_equal→eq}
use p2p_file_sync.Cas.Chunker.{Chunk}
use p2p_file_sync.Cas.Store.{
  Disk, update, tmp_path, Faults, StoreError, stat, abandon, publish, write_chunk, put,
  creating_directory, creating_temp_file, renaming_file, writing_chunk, flushing_chunk,
  closing_file,
}
use p2p_file_sync.Cas.Store.Paths.{IsHash, path_of, path_of_inj, tmp_path≢path_of}

pub update_self : (path : List ℕ) (c : Option (List ℕ)) (disk : Disk) → update path c disk path ≡ c
unfolding update
update_self path c disk = rw (bytes_equal_refl path) refl

pub update_other :
    (path other : List ℕ) (c : Option (List ℕ)) (disk : Disk)
    → path ≢ other
    → update path c disk other ≡ disk other
unfolding update
update_other path other c disk h = elim (Bool-cases (bytes_equal path other)) [
  | inl e ↦ absurd (h (bytes_equal→eq path other e))
  | inr e ↦ rw e refl
]

pub stat-true : (b : Bool) (o : Option (List ℕ)) → stat b o ≡ true → (c : List ℕ) × (o ≡ some c)
unfolding stat
stat-true true o h = cc
stat-true false none h = cc
stat-true false (some c) h = (c, refl)

-- The same chunks are there.
abbrev pub SameChunks : Disk → Disk → Type 0
SameChunks disk disk' = (h : List ℕ) → IsHash h → disk' (path_of h) ≡ disk (path_of h)

-- What Put returns and leaves.
pub record Kept (hash : List ℕ) (disk : Disk) (out : Outcome StoreError Bool × Disk) : Type 0 where
  pub same : SameChunks disk out.1
  pub result :
      ((e : StoreError) × (out.0 ≡ err e))
      ⊎ ((out.0 ≡ ok false) × ((c : List ℕ) × (disk (path_of hash) ≡ some c)))

pub record Stored (hash content : List ℕ) (disk : Disk) (out : Outcome StoreError Bool × Disk)
    : Type 0 where
  pub result : out.0 ≡ ok true
  pub stored : out.1 (path_of hash) ≡ some content
  pub others : (h : List ℕ) → IsHash h → h ≢ hash → out.1 (path_of h) ≡ disk (path_of h)

abbrev pub Atomic : List ℕ → List ℕ → Disk → Outcome StoreError Bool × Disk → Type 0
Atomic hash content disk out = Kept hash disk out ⊎ Stored hash content disk out

module _ (hash : List ℕ) (is_hash : IsHash hash) where
  -- The temporary file is no chunk.
  tmp-SameChunks :
      (c : Option (List ℕ)) (disk disk' : Disk)
      → SameChunks disk disk'
      → SameChunks disk (update (tmp_path (path_of hash)) c disk')
  tmp-SameChunks c disk disk' same h k =
      update_other (tmp_path (path_of hash)) (path_of h) c disk' (tmp_path≢path_of hash h is_hash k)
      ∙ same h k

  abandon-Kept :
      (b : Bool) (e : StoreError) (disk disk' : Disk)
      → SameChunks disk disk'
      → Kept hash disk (abandon b e (tmp_path (path_of hash)) disk')
  unfolding abandon
  abandon-Kept true e disk disk' same = record { same = same; result = inl (e, refl) }
  abandon-Kept false e disk disk' same = record {
    same = tmp-SameChunks none disk disk' same;
    result = inl (e, refl);
  }

  publish-Atomic :
      (f : Faults) (content : List ℕ) (disk disk' : Disk)
      → SameChunks disk disk'
      → disk' (tmp_path (path_of hash)) ≡ some content
      → Atomic hash content disk (publish f (path_of hash) (tmp_path (path_of hash)) disk')
  unfolding publish
  publish-Atomic f content disk disk' same written =
      let tmp = tmp_path (path_of hash) in
      let renamed = update (path_of hash) (disk' tmp) disk' in
      if-cases (Atomic hash content disk) f.rename_fails _ _
        (λ e. inl (abandon-Kept f.remove_fails renaming_file disk disk' same))
        (λ e. inr (record {
          result = refl;
          stored =
              update_other tmp (path_of hash) none renamed
                (tmp_path≢path_of hash hash is_hash is_hash)
              ∙ update_self (path_of hash) (disk' tmp) disk'
              ∙ written;
          others = λ h k other.
              update_other tmp (path_of h) none renamed (tmp_path≢path_of hash h is_hash k)
              ∙ update_other (path_of hash) (path_of h) (disk' tmp) disk'
                  (λ e. other (sym (path_of_inj hash h is_hash k e)))
              ∙ same h k;
        }))

  write_chunk-Atomic :
      (f : Faults) (content : List ℕ) (disk : Disk)
      → Atomic hash content disk
          (write_chunk f (path_of hash) (tmp_path (path_of hash)) content disk)
  unfolding write_chunk
  write_chunk-Atomic f content disk =
      let tmp = tmp_path (path_of hash) in
      let P = Atomic hash content disk in
      let failed = update tmp (some f.left_behind) disk in
      let same : (c : Option (List ℕ)) → SameChunks disk (update tmp c disk) =
        λ c. tmp-SameChunks c disk disk (λ h k. refl) in
      let stop : (e : StoreError) → P (abandon f.remove_fails e tmp failed) =
        λ e. inl (abandon-Kept f.remove_fails e disk failed (same (some f.left_behind))) in
      if-cases P f.write_fails _ _ (λ e. stop writing_chunk)
        (λ e.
          if-cases P f.flush_fails _ _ (λ e. stop flushing_chunk)
            (λ e.
              if-cases P f.close_fails _ _ (λ e. stop closing_file)
                (λ e.
                  publish-Atomic f content disk (update tmp (some content) disk)
                    (same (some content)) (update_self tmp (some content) disk))))

-- Whichever of its calls fail, Put of a chunk with a hash of 32 bytes is atomic. Either it returns an
-- error, or false where the file of the hash exists, and then every chunk file is as before; or it
-- returns true, and then the file of the hash has the chunk's whole content and the file of every
-- other hash is as before.
pub put-Atomic :
    (f : Faults) (chunk : Chunk) (disk : Disk)
    → IsHash chunk.hash
    → Atomic chunk.hash chunk.content disk (put f chunk disk)
unfolding put
put-Atomic f chunk disk is_hash =
    let P = Atomic chunk.hash chunk.content disk in
    if-cases P (stat f.stat_fails (disk (path_of chunk.hash))) _ _
      (λ e. inl (record {
        same = λ h k. refl;
        result = inr (refl, stat-true f.stat_fails (disk (path_of chunk.hash)) e);
      }))
      (λ e.
        if-cases P f.mkdir_fails _ _
          (λ e. inl (record { same = λ h k. refl; result = inl (creating_directory, refl) }))
          (λ e.
            if-cases P f.open_fails _ _
              (λ e. inl (record { same = λ h k. refl; result = inl (creating_temp_file, refl) }))
              (λ e. write_chunk-Atomic chunk.hash is_hash f chunk.content disk)))

-- Every chunk file has the content that its name is the hash of.
abbrev pub Consistent : (List ℕ → List ℕ) → Disk → Type 0
Consistent sha256 disk = (h c : List ℕ) → IsHash h → disk (path_of h) ≡ some c → sha256 c ≡ h

Atomic-Consistent :
    (sha256 : List ℕ → List ℕ) (hash content : List ℕ) (disk : Disk)
    (out : Outcome StoreError Bool × Disk)
    → IsHash hash
    → sha256 content ≡ hash
    → Atomic hash content disk out
    → Consistent sha256 disk
    → Consistent sha256 out.1
Atomic-Consistent sha256 hash content disk out is_hash honest (inl k) old h c is at =
    old h c is (sym (k.same h is) ∙ at)
Atomic-Consistent sha256 hash content disk out is_hash honest (inr s) old h c is at =
    elim (Bool-cases (bytes_equal h hash)) [
      | inl e ↦
          let same = bytes_equal→eq h hash e in
          let whole : some content ≡ some c =
            sym s.stored ∙ ap (λ (x : List ℕ). out.1 (path_of x)) (sym same) ∙ at in
          ap sha256 (sym (some-cancel whole)) ∙ honest ∙ sym same
      | inr e ↦
          old h c is
            (sym (s.others h is (λ same. cc (e, bytes_equal_refl h, ap (bytes_equal h) same))) ∙ at)
    ]

Atomic-found :
    (sha256 : List ℕ → List ℕ) (hash content : List ℕ) (disk : Disk)
    (out : Outcome StoreError Bool × Disk) (b : Bool)
    → IsHash hash
    → sha256 content ≡ hash
    → Atomic hash content disk out
    → Consistent sha256 disk
    → out.0 ≡ ok b
    → (c : List ℕ) × (out.1 (path_of hash) ≡ some c) × (sha256 c ≡ hash)
Atomic-found sha256 hash content disk out b is_hash honest (inl k) old done = elim k.result [
  | inl (e, failed) ↦ absurd (ok≢err (sym done ∙ failed))
  | inr (kept, (c, found)) ↦ (c, k.same hash is_hash ∙ found, old hash c is_hash found)
]
Atomic-found sha256 hash content disk out b is_hash honest (inr s) old done =
    (content, s.stored, honest)

-- In a store whose chunk files all have the content that their names are the hashes of, Put of a
-- chunk whose hash is that of its content, 32 bytes, leaves such a store, whichever of its calls
-- fail; and where it returns no error, the file of the hash is there with content of that hash.
pub put-Consistent :
    (sha256 : List ℕ → List ℕ) (f : Faults) (chunk : Chunk) (disk : Disk)
    → IsHash chunk.hash
    → sha256 chunk.content ≡ chunk.hash
    → Consistent sha256 disk
    → Consistent sha256 (put f chunk disk).1
      × ((b : Bool)
          → (put f chunk disk).0 ≡ ok b
          → (c : List ℕ) × ((put f chunk disk).1 (path_of chunk.hash) ≡ some c)
            × (sha256 c ≡ chunk.hash))
put-Consistent sha256 f chunk disk is_hash honest old =
    let atomic = put-Atomic f chunk disk is_hash in
    (
      Atomic-Consistent sha256 chunk.hash chunk.content disk (put f chunk disk) is_hash honest
          atomic old,
      λ b done.
          Atomic-found sha256 chunk.hash chunk.content disk (put f chunk disk) b is_hash honest
            atomic old done,
    )
