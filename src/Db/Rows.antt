-- ===== src/Db/Rows.antt =====
-- What a transaction leaves, and the rows that SetFileChunks and UpsertFile write.
use p2p_file_sync.Prelude.{
  ℕ, suc, ◌≡◌, ◌≢◌, refl, ap, sym, ◌∙◌, ◌⊎◌, inl, inr, Bool, true, false, Option, none, some, List,
  [], ◌∷◌, ◌++◌, append-nil, append_assoc, if-cases, Outcome, ok, err,
}
use p2p_file_sync.Assoc.{find, find-store_self, find-store_other}
use p2p_file_sync.Db.{
  Tables, ChunkRow, FileRow, FileRecord, DbError, beginning, committing, upserting_file,
  deleting_chunks, inserting_chunk, finish, transaction, row_of, upsert_row, upsert_file,
  without_file, other_sizes, chunk_row, insert_chunks, set_file_chunks,
}

finish-cases :
    {A : Type 0} (b : Bool) (t : Tables) (out : Outcome DbError A × Tables)
    → ((e : DbError) × (finish b t out ≡ (err e, t)))
      ⊎ ((a : A) × (out.0 ≡ ok a) × (finish b t out ≡ out))
unfolding finish
finish-cases b t (err e, u) = inl (e, refl)
finish-cases true t (ok a, u) = inl (committing, refl)
finish-cases false t (ok a, u) = inr (a, refl, refl)

-- A transaction returns an error and leaves the tables as they were, or it does what its function does.
pub transaction-cases :
    {A : Type 0} (b c : Bool) (body : Tables → Outcome DbError A × Tables) (t : Tables)
    → ((e : DbError) × (transaction b c body t ≡ (err e, t)))
      ⊎ ((a : A) × ((body t).0 ≡ ok a) × (transaction b c body t ≡ body t))
unfolding transaction
transaction-cases true c body t = inl (beginning, refl)
transaction-cases false c body t = finish-cases c t (body t)

-- The rows of a file, from an index on.
abbrev pub chunk_rows : ℕ → ℕ → List (List ℕ) → List ℕ → List ChunkRow
chunk_rows id i [] sizes = []
chunk_rows id i (hash ∷ hashes) sizes =
    chunk_row id i hash sizes ∷ chunk_rows id (suc i) hashes (other_sizes sizes)

abbrev Inserted : Tables → List ChunkRow → Outcome DbError (Unit {0}) × Tables → Type 0
Inserted t rows out =
    ((e : DbError) × (out.0 ≡ err e))
    ⊎ (out ≡ (ok tt, record t { file_chunks = t.file_chunks ++ rows }))

insert_chunks-Inserted :
    (fails : ℕ → Bool) (id i : ℕ) (hashes : List (List ℕ)) (sizes : List ℕ) (t : Tables)
    → Inserted t (chunk_rows id i hashes sizes) (insert_chunks fails id i hashes sizes t)
unfolding insert_chunks
insert_chunks-Inserted fails id i [] sizes t = inr (
    ap (λ (rows : List ChunkRow). (ok tt, record t { file_chunks = rows }))
      (sym (append-nil t.file_chunks)))
insert_chunks-Inserted fails id i (hash ∷ hashes) sizes t =
    let row = chunk_row id i hash sizes in
    if-cases (Inserted t (row ∷ chunk_rows id (suc i) hashes (other_sizes sizes))) (fails i) _ _
      (λ e. inl (inserting_chunk i, refl))
      (λ e.
        elim (insert_chunks-Inserted fails id (suc i) hashes (other_sizes sizes)
          (record t { file_chunks = t.file_chunks ++ (row ∷ []) })) [
            | inl bad ↦ inl bad
            | inr done ↦ inr (
                done
                ∙ ap (λ (rows : List ChunkRow). (ok tt, record t { file_chunks = rows }))
                    (append_assoc t.file_chunks (row ∷ [])
                      (chunk_rows id (suc i) hashes (other_sizes sizes))))
          ])

-- SetFileChunks fails, or the rows of the file are the new ones, and those of other files are as before.
pub set_file_chunks-cases :
    (delete_fails : Bool) (fails : ℕ → Bool) (id : ℕ) (hashes : List (List ℕ)) (sizes : List ℕ)
    (t : Tables)
    → ((e : DbError) × ((set_file_chunks delete_fails fails id hashes sizes t).0 ≡ err e))
      ⊎ (set_file_chunks delete_fails fails id hashes sizes t ≡ (
        ok tt,
        record t { file_chunks = without_file id t.file_chunks ++ chunk_rows id 0 hashes sizes },
      ))
unfolding set_file_chunks
set_file_chunks-cases true fails id hashes sizes t = inl (deleting_chunks, refl)
set_file_chunks-cases false fails id hashes sizes t =
    insert_chunks-Inserted fails id 0 hashes sizes
      (record t { file_chunks = without_file id t.file_chunks })

-- The ID of the row of a path: the old one, or the next.
abbrev pub IdFor : List ℕ → Tables → ℕ → Type 0
IdFor path t id =
    ((find path t.files ≡ none) × (id ≡ t.next_id))
    ⊎ ((old : FileRow) × (find path t.files ≡ some old) × (id ≡ old.id))

-- The tables after UpsertFile.
pub record Upserted (r : FileRecord) (t u : Tables) (id : ℕ) : Type 0 where
  pub id_for : IdFor r.path t id
  pub row : find r.path u.files ≡ some (row_of id r)
  pub others : (other : List ℕ) → r.path ≢ other → find other u.files ≡ find other t.files
  pub chunks : u.file_chunks ≡ t.file_chunks

upsert_row-Upserted :
    (r : FileRecord) (t : Tables) (o : Option FileRow)
    → find r.path t.files ≡ o
    → (id : ℕ) × ((upsert_row r t o).0 ≡ ok id) × Upserted r t (upsert_row r t o).1 id
unfolding upsert_row
upsert_row-Upserted r t none e = (
  t.next_id,
  refl,
  record {
    id_for = inl (e, refl);
    row = find-store_self r.path (row_of t.next_id r) t.files;
    others = λ other ne. find-store_other r.path other (row_of t.next_id r) t.files ne;
    chunks = refl;
  },
)
upsert_row-Upserted r t (some old) e = (
  old.id,
  refl,
  record {
    id_for = inr (old, e, refl);
    row = find-store_self r.path (row_of old.id r) t.files;
    others = λ other ne. find-store_other r.path other (row_of old.id r) t.files ne;
    chunks = refl;
  },
)

pub upsert_file-cases :
    (fails : Bool) (r : FileRecord) (t : Tables)
    → ((e : DbError) × ((upsert_file fails r t).0 ≡ err e))
      ⊎ ((id : ℕ) × ((upsert_file fails r t).0 ≡ ok id) × Upserted r t (upsert_file fails r t).1 id)
unfolding upsert_file
upsert_file-cases true r t = inl (upserting_file, refl)
upsert_file-cases false r t = inr (upsert_row-Upserted r t (find r.path t.files) refl)
