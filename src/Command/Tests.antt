-- ===== src/Command/Tests.antt =====
-- A peer with one file of one chunk, and a store without it.
use p2p_file_sync.Prelude.{
  ℕ, ◌≡◌, refl, Option, false, none, some, List, [], ◌∷◌, ◌++◌, replicate, arith, Outcome, ok,
}
use p2p_file_sync.Bytes.{All, text_bytes}
use p2p_file_sync.Cas.Chunker.{Chunk}
use p2p_file_sync.Cas.Store.{Disk, put}
use p2p_file_sync.Cas.Store.Paths.{IsHash, path_of}
use p2p_file_sync.Cas.Store.Puts.{Consistent, put-Consistent}
use p2p_file_sync.Cas.Store.Reads.{no_read_faults}
use p2p_file_sync.Cas.Store.Working.{no_faults, put-no_faults}
use p2p_file_sync.Proto.Nodes.{ProtoNode, proto_node, no_more}
use p2p_file_sync.ProtoDiff.{Differences}
use p2p_file_sync.Net.{ChunkResponse, RequestError, handle_chunk_request}
use p2p_file_sync.Net.Served.{Found}
use p2p_file_sync.Command.{Progress, fetch}
use p2p_file_sync.Command.Grows.{Grows, fetch-Grows}
use p2p_file_sync.Command.Listed.{listed_chunks, listed_all}
use p2p_file_sync.Command.Download.{fetch-Found}

abbrev hash : List ℕ
hash = replicate 32 7

abbrev sha256 : List ℕ → List ℕ
sha256 content = hash

hash-IsHash : IsHash hash
hash-IsHash = (refl, omega arith)

abbrev chunk : Chunk
chunk = record { hash = hash; size = 3; content = text_bytes "abc" }

abbrev empty : Disk
empty path = none

empty-Consistent : Consistent sha256 empty
empty-Consistent h c is e = cc

abbrev server : Disk
server = (put no_faults chunk empty).1

server-Found : Found server hash
server-Found =
    let (b, done) = put-no_faults chunk empty in
    let (c, at, same) =
      (put-Consistent sha256 no_faults chunk empty hash-IsHash refl empty-Consistent).1 b done in
    (c, at)

abbrev remote_file : ProtoNode
remote_file =
    proto_node
      (record {
        name = text_bytes "a";
        directory = false;
        hash = hash;
        mode = 420;
        size = 3;
        chunks = hash ∷ [];
      })
      no_more

abbrev new_file : Differences
new_file = record { added = remote_file ∷ []; modified = []; deleted = [] }

abbrev ask : ℕ → List (List ℕ) → Outcome RequestError ChunkResponse
ask n batch = ok (handle_chunk_request (λ k. no_read_faults) server batch)

abbrev outcome : Option RequestError × Progress
outcome = fetch sha256 (λ n. no_faults) (λ h. false) ask new_file empty

served :
    All (λ h. IsHash h × Found server h) (listed_all new_file.added ++ listed_all new_file.modified)
unfolding listed_chunks
served = ((hash-IsHash, server-Found), tt)

fetch-Found_example :
    (outcome.0 ≡ none)
    × All
        (λ h. (c : List ℕ) × (outcome.1.disk (path_of h) ≡ some c) × (sha256 c ≡ h))
        (listed_all new_file.added ++ listed_all new_file.modified)
fetch-Found_example =
    fetch-Found sha256 (λ n. no_faults) (λ h. false) ask new_file empty server (λ x. hash-IsHash)
      (λ n. refl) empty-Consistent
      (put-Consistent sha256 no_faults chunk empty hash-IsHash refl empty-Consistent).0 served
      (λ n batch. refl)

fetch-Grows_example : Grows sha256 empty outcome.1.disk
fetch-Grows_example =
    fetch-Grows sha256 (λ n. no_faults) (λ h. false) ask new_file empty (λ x. hash-IsHash)
