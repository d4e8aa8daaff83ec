-- ===== src/Watcher/Settled.antt =====
-- A file that was processed is not processed again.
use p2p_file_sync.Prelude.{
  ℕ, ◌≡◌, refl, ap, sym, ◌∙◌, ◌⊎◌, inl, inr, Bool, true, false, ==_iff, some, List, Outcome, ok,
  err, ok≢err, ok-injective,
}
use p2p_file_sync.Stream.{Stream}
use p2p_file_sync.Assoc.{find}
use p2p_file_sync.Cas.Chunker.{Chunk}
use p2p_file_sync.Db.{Tables, DbError, row_of, get_file, changed, needs_update_of, needs_update}
use p2p_file_sync.Watcher.{
  regular, WatchError, Failing, file_record, handle_update, if_needed, process_file,
}
use p2p_file_sync.Watcher.Updates.{handle_update-Whole}

if_needed-cases :
    (o : Outcome DbError Bool) (t : Tables) (update : Outcome WatchError (Unit {0}) × Tables)
    → (if_needed o t update).0 ≡ ok tt
    → ((o ≡ ok false) × (if_needed o t update ≡ (ok tt, t))) ⊎ (if_needed o t update ≡ update)
unfolding if_needed
if_needed-cases (err e) t update h = absurd (ok≢err (sym h))
if_needed-cases (ok false) t update h = inl (refl, refl)
if_needed-cases (ok true) t update h = inr refl

module _ (path : List ℕ) (mod_time size : ℕ) where
  needs_update-false :
      (b : Bool) (t : Tables)
      → needs_update b path mod_time size t ≡ ok false
      → changed mod_time size (find path t.files) ≡ false
  unfolding needs_update needs_update_of get_file
  needs_update-false true t h = absurd (ok≢err (sym h))
  needs_update-false false t h = ok-injective h

  changed-row :
      (sha256 : List ℕ → List ℕ) (id : ℕ) (chunks : List Chunk)
      → changed mod_time size (some (row_of id (file_record sha256 path mod_time size chunks)))
        ≡ false
  unfolding changed row_of file_record
  changed-row sha256 id chunks =
      rw ((==_iff size size).1 refl) (rw ((==_iff mod_time mod_time).1 refl) refl)

  unchanged :
      (sha256 : List ℕ → List ℕ) (g : Failing) (cascades : Bool) (content : Stream) (t : Tables)
      → g.getting ≡ false
      → changed mod_time size (find path t.files) ≡ false
      → process_file sha256 g cascades path (regular mod_time size) content t ≡ (ok tt, t)
  unfolding process_file needs_update get_file needs_update_of
  unchanged sha256 g cascades content t working h =
      let update = handle_update sha256 g path mod_time size content t in
      ap (λ (b : Bool). if_needed (needs_update b path mod_time size t) t update) working
      ∙ ap (λ (b : Bool). if_needed (ok b) t update) h
      ∙ (unfold if_needed in refl)

  process_file-cases :
      (sha256 : List ℕ → List ℕ) (f : Failing) (cascades : Bool) (content : Stream) (t : Tables)
      → (process_file sha256 f cascades path (regular mod_time size) content t).0 ≡ ok tt
      → ((needs_update f.getting path mod_time size t ≡ ok false)
          × (process_file sha256 f cascades path (regular mod_time size) content t ≡ (ok tt, t)))
        ⊎ (process_file sha256 f cascades path (regular mod_time size) content t
            ≡ handle_update sha256 f path mod_time size content t)
  unfolding process_file
  process_file-cases sha256 f cascades content t done =
      if_needed-cases (needs_update f.getting path mod_time size t) t
        (handle_update sha256 f path mod_time size content t) done

-- After processFile of a regular file that returned no error, processFile with the same time and size
-- does nothing and returns no error, whatever the content of the file is by then, where GetFile does
-- not fail.
pub process_file-process_file :
    (sha256 : List ℕ → List ℕ) (f g : Failing) (cascades : Bool) (path : List ℕ) (mod_time size : ℕ)
    (content later : Stream) (t : Tables)
    → g.getting ≡ false
    → (process_file sha256 f cascades path (regular mod_time size) content t).0 ≡ ok tt
    → process_file sha256 g cascades path
        (regular mod_time size)
        later
        (process_file sha256 f cascades path (regular mod_time size) content t).1
      ≡ (ok tt, (process_file sha256 f cascades path (regular mod_time size) content t).1)
unfolding file_record
process_file-process_file sha256 f g cascades path mod_time size content later t working done =
    let out = process_file sha256 f cascades path (regular mod_time size) content t in
    unchanged path mod_time size sha256 g cascades later out.1 working
      (elim (process_file-cases path mod_time size sha256 f cascades content t done) [
        | inl (settled, same) ↦
            ap
              (λ (o : Outcome WatchError (Unit {0}) × Tables).
                changed mod_time size (find path o.1.files))
              same
            ∙ needs_update-false path mod_time size f.getting t settled
        | inr same ↦ elim (handle_update-Whole sha256 f path mod_time size content t) [
          | inl (e, bad) ↦ absurd (
              ok≢err
                (sym done ∙ ap (λ (o : Outcome WatchError (Unit {0}) × Tables). o.0) (same ∙ bad)))
          | inr (chunks, read, fine, recorded) ↦
              ap
                (λ (o : Outcome WatchError (Unit {0}) × Tables).
                  changed mod_time size (find path o.1.files))
                same
              ∙ ap (changed mod_time size) recorded.row
              ∙ changed-row path mod_time size sha256 recorded.id chunks
        ]
      ])
