-- ===== src/Watcher/Updates.antt =====
-- An update of the watcher is recorded whole, or not at all, and then it is settled.
use p2p_file_sync.Prelude.{
  ℕ, ◌≡◌, ◌≢◌, refl, ap, sym, subst, ◌∙◌, ◌⊎◌, inl, inr, some, List, ◌++◌, map, if-cases, Outcome,
  ok, err, ok≢err, ok-injective,
}
use p2p_file_sync.Stream.{Stream}
use p2p_file_sync.Assoc.{find}
use p2p_file_sync.Cas.Chunker.{Chunk, ChunkError, chunk_all}
use p2p_file_sync.Db.{
  Tables, FileRecord, DbError, row_of, without_file, upsert_file, set_file_chunks,
}
use p2p_file_sync.Db.Rows.{
  chunk_rows, IdFor, Upserted, transaction-cases, set_file_chunks-cases, upsert_file-cases,
}
use p2p_file_sync.Watcher.{
  WatchError, opening_file, chunking_file, updating_database, Failing, file_record, then_chunks,
  record_file, updated, update_with, handle_update,
}

abbrev pub hashes_of : List Chunk → List (List ℕ)
hashes_of chunks = map (λ (c : Chunk). c.hash) chunks

abbrev pub sizes_of : List Chunk → List ℕ
sizes_of chunks = map (λ (c : Chunk). c.size) chunks

-- The tables with the record of a file, and the chunks of it.
pub record Recorded (r : FileRecord) (chunks : List Chunk) (t u : Tables) : Type 0 where
  pub id : ℕ
  pub id_for : IdFor r.path t id
  pub row : find r.path u.files ≡ some (row_of id r)
  pub others : (other : List ℕ) → r.path ≢ other → find other u.files ≡ find other t.files
  pub rows :
      u.file_chunks
      ≡ without_file id t.file_chunks ++ chunk_rows id 0 (hashes_of chunks) (sizes_of chunks)

set_chunks-Recorded :
    (f : Failing) (r : FileRecord) (chunks : List Chunk) (t u : Tables) (id : ℕ)
    → Upserted r t u id
    → let out =
        set_file_chunks f.delete_chunks f.insert_chunk id (hashes_of chunks) (sizes_of chunks) u in
      ((e : DbError) × (out.0 ≡ err e)) ⊎ Recorded r chunks t out.1
set_chunks-Recorded f r chunks t u id up =
    elim (set_file_chunks-cases f.delete_chunks f.insert_chunk id (hashes_of chunks)
      (sizes_of chunks) u) [
        | inl bad ↦ inl bad
        | inr done ↦ inr (
            subst (λ (out : Outcome DbError (Unit {0}) × Tables). Recorded r chunks t out.1)
              (sym done)
              (record {
                id = id;
                id_for = up.id_for;
                row = up.row;
                others = up.others;
                rows =
                    ap
                      (λ (rows : _).
                        without_file id rows
                        ++ chunk_rows id 0 (hashes_of chunks) (sizes_of chunks))
                      up.chunks;
              }))
      ]

-- By the two ends of UpsertFile.
then_chunks-cases :
    (f : Failing) (r : FileRecord) (chunks : List Chunk) (t : Tables)
    (up : Outcome DbError ℕ × Tables)
    → ((e : DbError) × (up.0 ≡ err e)) ⊎ ((id : ℕ) × (up.0 ≡ ok id) × Upserted r t up.1 id)
    → ((e : DbError) × ((then_chunks f chunks up).0 ≡ err e))
      ⊎ Recorded r chunks t (then_chunks f chunks up).1
unfolding then_chunks
then_chunks-cases f r chunks t (err e, u) h = inl (e, refl)
then_chunks-cases f r chunks t (ok id, u) (inl (e, bad)) = absurd (ok≢err bad)
then_chunks-cases f r chunks t (ok id, u) (inr (j, same, up)) =
    set_chunks-Recorded f r chunks t u id (subst (Upserted r t u) (sym (ok-injective same)) up)

updated-ok :
    (out : Outcome DbError (Unit {0}) × Tables) (a : Unit {0})
    → out.0 ≡ ok a
    → updated out ≡ (ok tt, out.1)
unfolding updated
updated-ok (ok b, t) a h = refl
updated-ok (err e, t) a h = cc

-- What handleUpdate returns and leaves.
abbrev pub Whole :
    (List ℕ → List ℕ)
    → List ℕ
    → ℕ
    → ℕ
    → Stream
    → Tables
    → Outcome WatchError (Unit {0}) × Tables
    → Type 0
Whole sha256 path mod_time size content t out =
    ((e : WatchError) × (out ≡ (err e, t)))
    ⊎ ((chunks : List Chunk) × (chunk_all sha256 content ≡ ok chunks)
        × (out.0 ≡ ok tt)
        × Recorded (file_record sha256 path mod_time size chunks) chunks t out.1)

module _ (sha256 : List ℕ → List ℕ) (f : Failing) (path : List ℕ) (mod_time size : ℕ)
    (content : Stream) (t : Tables) where
  update_with-Whole :
      (read : Outcome ChunkError (List Chunk))
      → chunk_all sha256 content ≡ read
      → Whole sha256 path mod_time size content t (update_with sha256 f path mod_time size t read)
  unfolding update_with
  update_with-Whole (err e) h = inl (chunking_file e, refl)
  update_with-Whole (ok chunks) h =
      let r = file_record sha256 path mod_time size chunks in
      elim (transaction-cases f.begin_transaction f.commit (record_file f r chunks) t) [
        | inl (e, back) ↦ inl (
          updating_database e,
          ap (λ (out : Outcome DbError (Unit {0}) × Tables). updated out) back
              ∙ (unfold updated in refl),
        )
        | inr (a, fine, through) ↦
            elim (then_chunks-cases f r chunks t (upsert_file f.upsert r t)
              (upsert_file-cases f.upsert r t)) [
                | inl (e, bad) ↦ absurd (ok≢err (sym fine ∙ (unfold record_file in bad)))
                | inr recorded ↦
                    let same =
                      ap (λ (out : Outcome DbError (Unit {0}) × Tables). updated out) through
                      ∙ updated-ok (record_file f r chunks t) a fine in
                    inr (
                      chunks,
                      h,
                      ap (λ (out : Outcome WatchError (Unit {0}) × Tables). out.0) same,
                      subst
                          (λ (out : Outcome WatchError (Unit {0}) × Tables).
                            Recorded r chunks t out.1)
                          (sym same) (unfold record_file in recorded),
                    )
              ]
      ]

  -- Whichever of its calls fail, handleUpdate returns an error and leaves the tables as they were, or
  -- it returns none, has read the chunks of the file, and the tables have the record of the file, under
  -- its old ID or the next one, and exactly the rows of these chunks for this ID; the records of other
  -- files, and the rows of other IDs, are as before.
  pub handle_update-Whole :
      Whole sha256 path mod_time size content t
        (handle_update sha256 f path mod_time size content t)
  unfolding handle_update
  handle_update-Whole =
      if-cases (Whole sha256 path mod_time size content t) f.opening _ _
        (λ e. inl (opening_file, refl)) (λ e. update_with-Whole (chunk_all sha256 content) refl)
