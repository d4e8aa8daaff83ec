-- ===== src/Watcher/Tests.antt =====
-- A file of two bytes that is not in the tables.
use p2p_file_sync.Prelude.{ℕ, ◌≡◌, refl, true, false, List, [], ok}
use p2p_file_sync.Bytes.{text_bytes}
use p2p_file_sync.Stream.{Stream, of_list, read_more}
use p2p_file_sync.Assoc.{find}
use p2p_file_sync.Cas.Chunker.{chunk_all, chunk_loop, append_chunk, next, chunk_size}
use p2p_file_sync.Db.{Tables, transaction, upsert_file, set_file_chunks, needs_update}
use p2p_file_sync.Watcher.{Failing, regular, handle_update, process_file}
use p2p_file_sync.Watcher.Updates.{Whole, handle_update-Whole}
use p2p_file_sync.Watcher.Settled.{process_file-process_file}

abbrev none_failing : Failing
none_failing = record {
  opening = false;
  getting = false;
  begin_transaction = false;
  commit = false;
  upsert = false;
  delete_chunks = false;
  insert_chunk = λ i. false;
  delete_row = false;
}

abbrev path : List ℕ
path = text_bytes "a"

abbrev content : Stream
content = of_list (text_bytes "hi")

abbrev empty : Tables
empty = record { files = []; file_chunks = []; next_id = 1 }

abbrev sha256 : List ℕ → List ℕ
sha256 bytes = bytes

handle_update-Whole_example :
    Whole sha256 path 100 2 content empty
      (handle_update sha256 none_failing path 100 2 content empty)
handle_update-Whole_example = handle_update-Whole sha256 none_failing path 100 2 content empty

processed : (process_file sha256 none_failing true path (regular 100 2) content empty).0 ≡ ok tt
unfolding process_file find chunk_all needs_update chunk_loop append_chunk next read_more chunk_size
    transaction upsert_file set_file_chunks
processed = refl

process_file-process_file_example :
    process_file sha256 none_failing true path
      (regular 100 2)
      (of_list [])
      (process_file sha256 none_failing true path (regular 100 2) content empty).1
    ≡ (ok tt, (process_file sha256 none_failing true path (regular 100 2) content empty).1)
process_file-process_file_example =
    process_file-process_file sha256 none_failing none_failing true path 100 2 content (of_list [])
      empty refl processed
