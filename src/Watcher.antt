-- ===== src/Watcher.antt =====
-- internal/watcher/watcher.go: what becomes of a file that an event has queued. A file is read by
-- Cas.Chunker and recorded by Db, in one transaction. The goroutines, the directories that are
-- watched, and the callbacks are left out.
pub mod Updates
pub mod Settled
mod Tests
use mathlib.Core.List.{flatten}
use p2p_file_sync.Prelude.{
  ℕ, Bool, true, false, Option, none, some, List, [], ◌∷◌, ◌++◌, map, length, replicate,
  if◌then◌else◌, Outcome, ok, err,
}
use p2p_file_sync.Stream.{Stream}
use p2p_file_sync.Cas.Chunker.{Chunk, ChunkError, chunk_all}
use p2p_file_sync.Db.{
  Tables, FileRecord, DbError, transaction, upsert_file, set_file_chunks, delete_file, needs_update,
}

-- What os.Stat returns: that there is no file, an error, or the file.
pub data Stat : Type 0 where
  missing : Stat
  stat_error : Stat
  directory : Stat
  regular : ℕ → ℕ → Stat

pub data WatchError : Type 0 where
  stat_file opening_file : WatchError
  chunking_file : ChunkError → WatchError
  checking_needs_update updating_database deleting_from_database : DbError → WatchError

-- Which calls fail.
pub record Failing : Type 0 where
  pub opening : Bool
  pub getting : Bool
  pub begin_transaction : Bool
  pub commit : Bool
  pub upsert : Bool
  pub delete_chunks : Bool
  pub insert_chunk : ℕ → Bool
  pub delete_row : Bool

-- computeMerkleRoot
unfoldable pub compute_merkle_root : (List ℕ → List ℕ) → List (List ℕ) → List ℕ
compute_merkle_root sha256 [] = replicate 32 0
compute_merkle_root sha256 (h ∷ hashes) = sha256 (flatten (h ∷ hashes))

unfoldable pub file_record : (List ℕ → List ℕ) → List ℕ → ℕ → ℕ → List Chunk → FileRecord
unfolding compute_merkle_root
file_record sha256 path mod_time size chunks = record {
  path = path;
  merkle_root = compute_merkle_root sha256 (map (λ (c : Chunk). c.hash) chunks);
  size = size;
  mod_time = mod_time;
  chunk_count = length chunks;
}

-- The function that handleUpdate gives to Transaction: the chunks are set for the ID that UpsertFile
-- returns.
unfoldable pub then_chunks :
    Failing → List Chunk → Outcome DbError ℕ × Tables → Outcome DbError (Unit {0}) × Tables
then_chunks f chunks (err e, t) = (err e, t)
then_chunks f chunks (ok id, t) =
    set_file_chunks f.delete_chunks f.insert_chunk id (map (λ (c : Chunk). c.hash) chunks)
      (map (λ (c : Chunk). c.size) chunks) t

unfoldable pub record_file :
    Failing → FileRecord → List Chunk → Tables → Outcome DbError (Unit {0}) × Tables
unfolding then_chunks
record_file f r chunks t = then_chunks f chunks (upsert_file f.upsert r t)

unfoldable pub updated :
    Outcome DbError (Unit {0}) × Tables → Outcome WatchError (Unit {0}) × Tables
updated (err e, t) = (err (updating_database e), t)
updated (ok done, t) = (ok tt, t)

-- handleUpdate behind the chunking.
unfoldable pub update_with :
    (List ℕ → List ℕ)
    → Failing
    → List ℕ
    → ℕ
    → ℕ
    → Tables
    → Outcome ChunkError (List Chunk)
    → Outcome WatchError (Unit {0}) × Tables
unfolding file_record record_file updated
update_with sha256 f path mod_time size t (err e) = (err (chunking_file e), t)
update_with sha256 f path mod_time size t (ok chunks) = updated (
    transaction f.begin_transaction f.commit
      (record_file f (file_record sha256 path mod_time size chunks) chunks) t)

-- handleUpdate, of a file that reads as the stream.
unfoldable pub handle_update :
    (List ℕ → List ℕ)
    → Failing
    → List ℕ
    → ℕ
    → ℕ
    → Stream
    → Tables
    → Outcome WatchError (Unit {0}) × Tables
unfolding update_with
handle_update sha256 f path mod_time size content t =
    if f.opening
    then (err opening_file, t)
    else update_with sha256 f path mod_time size t (chunk_all sha256 content)

unfoldable pub deleted :
    Outcome DbError (Unit {0}) × Tables → Outcome WatchError (Unit {0}) × Tables
deleted (err e, t) = (err (deleting_from_database e), t)
deleted (ok done, t) = (ok tt, t)

-- handleDelete
unfoldable pub handle_delete :
    Failing → Bool → List ℕ → Tables → Outcome WatchError (Unit {0}) × Tables
unfolding deleted
handle_delete f cascades path t =
    deleted (transaction f.begin_transaction f.commit (delete_file f.delete_row cascades path) t)

unfoldable pub if_needed :
    Outcome DbError Bool
    → Tables
    → Outcome WatchError (Unit {0}) × Tables
    → Outcome WatchError (Unit {0}) × Tables
if_needed (err e) t update = (err (checking_needs_update e), t)
if_needed (ok false) t update = (ok tt, t)
if_needed (ok true) t update = update

-- processFile
unfoldable pub process_file :
    (List ℕ → List ℕ)
    → Failing
    → Bool
    → List ℕ
    → Stat
    → Stream
    → Tables
    → Outcome WatchError (Unit {0}) × Tables
unfolding handle_update handle_delete if_needed
process_file sha256 f cascades path missing content t = handle_delete f cascades path t
process_file sha256 f cascades path stat_error content t = (err stat_file, t)
process_file sha256 f cascades path directory content t = (ok tt, t)
process_file sha256 f cascades path (regular mod_time size) content t =
    if_needed (needs_update f.getting path mod_time size t) t
      (handle_update sha256 f path mod_time size content t)
