-- ===== src/Cas/Store.antt =====
-- internal/cas/store.go: BlobStore, over the files below its base directory. A file system gives a
-- path its content; which of its calls fail is a parameter of each operation.
pub mod Paths
pub mod Puts
pub mod Reads
pub mod Working
mod Tests
use p2p_file_sync.Prelude.{
  ℕ, ◌+◌, ◌/◌, ◌%◌, ◌^◌, Bool, true, false, ◌||◌, Option, none, some, List, [], ◌∷◌, ◌++◌, ltb,
  if◌then◌else◌, length, take, drop, Outcome, ok, err, ◌>>=◌,
}
use p2p_file_sync.Bytes.{bytes_equal}
use p2p_file_sync.Cas.Chunker.{Chunk}

-- hex.EncodeToString
unfoldable pub hex_digit : ℕ → ℕ
hex_digit d = if ltb d 10 then 48 + d else 87 + d

unfoldable pub hex_encode : List ℕ → List ℕ
hex_encode [] = []
hex_encode (b ∷ bs) = hex_digit (b / 16) ∷ hex_digit (b % 16) ∷ hex_encode bs

-- filepath.Join of two parts that are clean.
unfoldable pub join_parts : List ℕ → List ℕ → List ℕ
join_parts [] part = part
join_parts (b ∷ first) [] = b ∷ first
join_parts (b ∷ first) (c ∷ part) = (b ∷ first) ++ (47 ∷ (c ∷ part))

-- PrefixLength
abbrev pub prefix_length : ℕ
prefix_length = 2

-- BlobStore.chunkPath, below the base directory.
unfoldable pub chunk_path : List ℕ → List ℕ
chunk_path hash_hex =
    if ltb (length hash_hex) prefix_length
    then hash_hex
    else join_parts (take prefix_length hash_hex) (drop prefix_length hash_hex)

-- `path + ".tmp"`
unfoldable pub tmp_path : List ℕ → List ℕ
tmp_path path = path ++ (46 ∷ 116 ∷ 109 ∷ 112 ∷ [])

abbrev pub Disk : Type 0
Disk = List ℕ → Option (List ℕ)

-- A change of one file: with `none`, its removal.
unfoldable pub update : List ℕ → Option (List ℕ) → Disk → Disk
update path content disk other = if bytes_equal path other then content else disk other

-- Which calls fail, and what a failed write leaves in its file.
pub record Faults : Type 0 where
  pub stat_fails : Bool
  pub mkdir_fails : Bool
  pub open_fails : Bool
  pub write_fails : Bool
  pub flush_fails : Bool
  pub close_fails : Bool
  pub rename_fails : Bool
  pub remove_fails : Bool
  pub left_behind : List ℕ

pub data StoreError : Type 0 where
  creating_directory creating_temp_file writing_chunk flushing_chunk closing_file renaming_file :
      StoreError

-- Whether os.Stat finds the file.
unfoldable pub stat : Bool → Option (List ℕ) → Bool
stat true found = false
stat false none = false
stat false (some content) = true

-- An error behind the opening of the temporary file, which os.Remove may fail to remove.
unfoldable pub abandon : Bool → StoreError → List ℕ → Disk → Outcome StoreError Bool × Disk
abandon true e tmp disk = (err e, disk)
abandon false e tmp disk = (err e, update tmp none disk)

-- BlobStore.Put from the rename on.
unfoldable pub publish : Faults → List ℕ → List ℕ → Disk → Outcome StoreError Bool × Disk
unfolding abandon
publish f path tmp disk =
    if f.rename_fails
    then abandon f.remove_fails renaming_file tmp disk
    else (ok true, update tmp none (update path (disk tmp) disk))

-- BlobStore.Put from the write to the temporary file on.
unfoldable pub write_chunk :
    Faults → List ℕ → List ℕ → List ℕ → Disk → Outcome StoreError Bool × Disk
unfolding abandon publish
write_chunk f path tmp content disk =
    let failed = update tmp (some f.left_behind) disk in
    if f.write_fails
    then abandon f.remove_fails writing_chunk tmp failed
    else if f.flush_fails
    then abandon f.remove_fails flushing_chunk tmp failed
    else if f.close_fails
    then abandon f.remove_fails closing_file tmp failed
    else publish f path tmp (update tmp (some content) disk)

-- BlobStore.Put
unfoldable pub put : Faults → Chunk → Disk → Outcome StoreError Bool × Disk
unfolding stat write_chunk
put f chunk disk =
    let path = chunk_path (hex_encode chunk.hash) in
    if stat f.stat_fails (disk path)
    then (ok false, disk)
    else if f.mkdir_fails
    then (err creating_directory, disk)
    else if f.open_fails
    then (err creating_temp_file, disk)
    else write_chunk f path (tmp_path path) chunk.content disk

-- Which calls of a reading operation fail.
pub record ReadFaults : Type 0 where
  pub opening : Bool
  pub sizing : Bool
  pub reading : Bool

pub data GetError : Type 0 where
  chunk_not_found opening_file getting_stats reading_data corruption : GetError

-- The content of the file, in an error where it is missing, or cannot be opened or read.
unfoldable pub read_chunk : ReadFaults → Option (List ℕ) → Outcome GetError (List ℕ)
read_chunk f none = if f.opening then err opening_file else err chunk_not_found
read_chunk f (some content) =
    if f.opening
    then err opening_file
    else if f.sizing
    then err getting_stats
    else if f.reading
    then err reading_data
    else ok content

-- BlobStore.Get
unfoldable pub get : ReadFaults → List ℕ → Disk → Outcome GetError Chunk
unfolding read_chunk
get f hash disk = read_chunk f (disk (chunk_path (hex_encode hash))) >>= λ content.
    ok (record { hash = hash; size = length content % 2 ^ 32; content = content })

-- BlobStore.Has
unfoldable pub has : Bool → List ℕ → Disk → Bool
unfolding stat
has stat_fails hash disk = stat stat_fails (disk (chunk_path (hex_encode hash)))

-- BlobStore.Verify, which does not ask for the size.
unfoldable pub verify : (List ℕ → List ℕ) → ReadFaults → List ℕ → Disk → Outcome GetError (Unit {0})
unfolding read_chunk
verify sha256 f hash disk =
    read_chunk (record f { sizing = false }) (disk (chunk_path (hex_encode hash))) >>= λ content.
    if bytes_equal (sha256 content) hash then ok tt else err corruption

-- BlobStore.Delete: whether it returns no error, and what it leaves.
unfoldable pub delete : Bool → List ℕ → Disk → Bool × Disk
delete remove_fails hash disk =
    let path = chunk_path (hex_encode hash) in
    elim (disk path) [
      | none ↦ if remove_fails then (false, disk) else (true, disk)
      | some content ↦ if remove_fails then (false, disk) else (true, update path none disk)
    ]
