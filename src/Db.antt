-- ===== src/Db.antt =====
-- internal/db/store.go: the tables of files and of their chunks, and what the statements do to them. A
-- statement may fail, and then changes nothing. The times that the database sets itself, and the
-- tables of snapshots, are left out.
pub mod Rows
use p2p_file_sync.Prelude.{
  ℕ, suc, ◌+◌, Bool, true, false, ◌&&◌, Option, none, some, List, [], ◌∷◌, ◌++◌, ◌==◌,
  if◌then◌else◌, Outcome, ok, err,
}
use p2p_file_sync.Assoc.{find, store, discard}

-- A row of files, by its path.
pub record FileRow : Type 0 where
  pub id : ℕ
  pub merkle_root : List ℕ
  pub size : ℕ
  pub mod_time : ℕ
  pub chunk_count : ℕ

pub record ChunkRow : Type 0 where
  pub file_id : ℕ
  pub chunk_index : ℕ
  pub chunk_hash : List ℕ
  pub size : ℕ

-- `next_id` is the ID that AUTOINCREMENT gives next.
pub record Tables : Type 0 where
  pub files : List (List ℕ × FileRow)
  pub file_chunks : List ChunkRow
  pub next_id : ℕ

-- FileRecord, as it is written.
pub record FileRecord : Type 0 where
  pub path : List ℕ
  pub merkle_root : List ℕ
  pub size : ℕ
  pub mod_time : ℕ
  pub chunk_count : ℕ

pub data DbError : Type 0 where
  beginning committing upserting_file deleting_file getting_file deleting_chunks : DbError
  inserting_chunk : ℕ → DbError

-- Store.Transaction: the tables are those before where the function returns an error or the
-- transaction is not committed. A rollback that fails itself leaves them to SQLite, which undoes the
-- changes of a transaction that has not ended.
unfoldable pub finish :
    {A : Type 0} → Bool → Tables → Outcome DbError A × Tables → Outcome DbError A × Tables
finish commit_fails before (err e, after) = (err e, before)
finish true before (ok a, after) = (err committing, before)
finish false before (ok a, after) = (ok a, after)

unfoldable pub transaction :
    {A : Type 0}
    → Bool
    → Bool
    → (Tables → Outcome DbError A × Tables)
    → Tables
    → Outcome DbError A × Tables
unfolding finish
transaction begin_fails commit_fails body tables =
    if begin_fails then (err beginning, tables) else finish commit_fails tables (body tables)

unfoldable pub row_of : ℕ → FileRecord → FileRow
row_of id r = record {
  id = id;
  merkle_root = r.merkle_root;
  size = r.size;
  mod_time = r.mod_time;
  chunk_count = r.chunk_count;
}

-- The row of UpsertFile, whether or not the path is there, with its ID.
unfoldable pub upsert_row : FileRecord → Tables → Option FileRow → Outcome DbError ℕ × Tables
unfolding row_of
upsert_row r t none = (
  ok t.next_id,
  record t { files = store r.path (row_of t.next_id r) t.files; next_id = t.next_id + 1 },
)
upsert_row r t (some old) = (ok old.id, record t { files = store r.path (row_of old.id r) t.files })

-- UpsertFile
unfoldable pub upsert_file : Bool → FileRecord → Tables → Outcome DbError ℕ × Tables
unfolding upsert_row
upsert_file fails r t =
    if fails then (err upserting_file, t) else upsert_row r t (find r.path t.files)

unfoldable pub without_file : ℕ → List ChunkRow → List ChunkRow
without_file id [] = []
without_file id (c ∷ cs) =
    let rest = without_file id cs in if c.file_id == id then rest else c ∷ rest

-- `size := 4096; if i < len(sizes) { ... }`, and the sizes that are left.
unfoldable pub first_size : List ℕ → ℕ
first_size [] = 4096
first_size (n ∷ sizes) = n

unfoldable pub other_sizes : List ℕ → List ℕ
other_sizes [] = []
other_sizes (n ∷ sizes) = sizes

-- The rows that SetFileChunks inserts.
unfoldable pub chunk_row : ℕ → ℕ → List ℕ → List ℕ → ChunkRow
unfolding first_size
chunk_row id i hash sizes = record {
  file_id = id;
  chunk_index = i;
  chunk_hash = hash;
  size = first_size sizes;
}

-- The loop of SetFileChunks. `fails` tells which of its statements fail, by the index.
unfoldable pub insert_chunks :
    (ℕ → Bool) → ℕ → ℕ → List (List ℕ) → List ℕ → Tables → Outcome DbError (Unit {0}) × Tables
unfolding chunk_row other_sizes
insert_chunks fails id i [] sizes t = (ok tt, t)
insert_chunks fails id i (hash ∷ hashes) sizes t =
    let rest =
      insert_chunks fails id (suc i) hashes (other_sizes sizes)
        (record t { file_chunks = t.file_chunks ++ (chunk_row id i hash sizes ∷ []) }) in
    if fails i then (err (inserting_chunk i), t) else rest

-- SetFileChunks
unfoldable pub set_file_chunks :
    Bool → (ℕ → Bool) → ℕ → List (List ℕ) → List ℕ → Tables → Outcome DbError (Unit {0}) × Tables
unfolding insert_chunks without_file
set_file_chunks delete_fails fails id chunks sizes t =
    if delete_fails
    then (err deleting_chunks, t)
    else insert_chunks fails id 0 chunks sizes
        (record t { file_chunks = without_file id t.file_chunks })

-- DeleteFile. `cascades` tells whether SQLite deletes the chunks of the file with it, as it does on a
-- connection that enforces foreign keys.
unfoldable pub delete_row : Bool → List ℕ → Tables → Option FileRow → Tables
unfolding without_file
delete_row cascades path t none = t
delete_row false path t (some row) = record t { files = discard path t.files }
delete_row true path t (some row) = record t {
  files = discard path t.files;
  file_chunks = without_file row.id t.file_chunks;
}

unfoldable pub delete_file : Bool → Bool → List ℕ → Tables → Outcome DbError (Unit {0}) × Tables
unfolding delete_row
delete_file fails cascades path t =
    if fails
    then (err deleting_file, t)
    else (ok tt, delete_row cascades path t (find path t.files))

-- GetFile
unfoldable pub get_file : Bool → List ℕ → Tables → Outcome DbError (Option FileRow)
get_file fails path t = if fails then err getting_file else ok (find path t.files)

-- NeedsUpdate
unfoldable pub changed : ℕ → ℕ → Option FileRow → Bool
changed mod_time size none = true
changed mod_time size (some row) =
    if row.size == size then if row.mod_time == mod_time then false else true else true

unfoldable pub needs_update_of : ℕ → ℕ → Outcome DbError (Option FileRow) → Outcome DbError Bool
unfolding changed
needs_update_of mod_time size (err e) = err e
needs_update_of mod_time size (ok row) = ok (changed mod_time size row)

unfoldable pub needs_update : Bool → List ℕ → ℕ → ℕ → Tables → Outcome DbError Bool
unfolding get_file needs_update_of
needs_update fails path mod_time size t = needs_update_of mod_time size (get_file fails path t)
