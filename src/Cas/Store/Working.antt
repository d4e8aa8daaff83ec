-- ===== src/Cas/Store/Working.antt =====
-- A store of which no call fails.
use p2p_file_sync.Prelude.{◌≡◌, refl, Bool, true, false, [], Outcome, ok, if-cases}
use p2p_file_sync.Cas.Chunker.{Chunk}
use p2p_file_sync.Cas.Store.{Disk, Faults, StoreError, put, write_chunk, publish}

abbrev pub no_faults : Faults
no_faults = record {
  stat_fails = false;
  mkdir_fails = false;
  open_fails = false;
  write_fails = false;
  flush_fails = false;
  close_fails = false;
  rename_fails = false;
  remove_fails = false;
  left_behind = [];
}

pub put-no_faults :
    (chunk : Chunk) (disk : Disk) → (b : Bool) × ((put no_faults chunk disk).0 ≡ ok b)
unfolding put write_chunk publish
put-no_faults chunk disk =
    if-cases (λ (t : Outcome StoreError Bool × Disk). (b : Bool) × (t.0 ≡ ok b)) _ _ _
      (λ e. (false, refl)) (λ e. (true, refl))
