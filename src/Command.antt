-- ===== src/Command.antt =====
-- cmd/p2p-file-sync/main.go: the sync command behind its connection. The diff of the manifests, the
-- chunks that the store lacks, their download in batches, and the files that are made of them.
pub mod Grows
pub mod Listed
pub mod Download
pub mod Rebuild
mod Tests
use p2p_file_sync.Prelude.{
  ℕ, ◌+◌, Bool, Option, none, some, List, [], ◌∷◌, ◌++◌, if◌then◌else◌, Outcome, ok, err,
}
use p2p_file_sync.Pieces.{pieces}
use p2p_file_sync.Cas.Chunker.{Chunk}
use p2p_file_sync.Cas.Store.{Disk, Faults, StoreError, has, put}
use p2p_file_sync.Proto.Nodes.{ProtoNode, ProtoChildren, proto_node, no_more, proto_child}
use p2p_file_sync.ProtoDiff.{Differences}
use p2p_file_sync.Net.{ProtoChunk, ChunkResponse, RequestError}

-- `batchSize := 10`
abbrev pub batch_size : ℕ
batch_size = 10

module _ (stat_fails : List ℕ → Bool) (disk : Disk) where
  unfoldable pub missing_chunks : List (List ℕ) → List (List ℕ)
  missing_chunks [] = []
  missing_chunks (hash ∷ hashes) =
      let rest = missing_chunks hashes in
      if has (stat_fails hash) hash disk then rest else hash ∷ rest

  -- collectMissingChunks
  unfoldable mutual
    unfolding missing_chunks

    pub collect_missing : ProtoNode → List (List ℕ)
    collect_missing (proto_node i cs) = missing_chunks i.chunks ++ collect_missing_below cs

    pub collect_missing_below : ProtoChildren → List (List ℕ)
    collect_missing_below no_more = []
    collect_missing_below (proto_child c cs) = collect_missing c ++ collect_missing_below cs

  unfoldable pub collect_missing_all : List ProtoNode → List (List ℕ)
  unfolding collect_missing
  collect_missing_all [] = []
  collect_missing_all (n ∷ ns) = collect_missing n ++ collect_missing_all ns

  -- `neededChunks`
  unfoldable pub needed_chunks : Differences → List (List ℕ)
  unfolding collect_missing_all
  needed_chunks d = collect_missing_all d.added ++ collect_missing_all d.modified

-- The store, how often Put was called, and `downloaded`.
pub record Progress : Type 0 where
  pub disk : Disk
  pub puts : ℕ
  pub downloaded : ℕ

unfoldable pub count_put : Outcome StoreError Bool × Disk → Progress → Progress
count_put (ok b, disk) p = record { disk = disk; puts = p.puts + 1; downloaded = p.downloaded + 1 }
count_put (err e, disk) p = record { disk = disk; puts = p.puts + 1; downloaded = p.downloaded }

-- The chunk is named by the hash of what has come.
unfoldable pub received : (List ℕ → List ℕ) → ProtoChunk → Chunk
received sha256 c = record { hash = sha256 c.content; size = 0; content = c.content }

-- `faults` tells which calls fail in each Put, and `ask` what RequestChunks returns for each request.
module _ (sha256 : List ℕ → List ℕ) (faults : ℕ → Faults) where
  unfoldable pub store_received : List ProtoChunk → Progress → Progress
  unfolding received count_put
  store_received [] p = p
  store_received (c ∷ cs) p =
      store_received cs (count_put (put (faults p.puts) (received sha256 c) p.disk) p)

  unfoldable pub with_response :
      Outcome RequestError ChunkResponse
      → Progress
      → (Progress → Option RequestError × Progress)
      → Option RequestError × Progress
  unfolding store_received
  with_response (err e) p go_on = (some e, p)
  with_response (ok r) p go_on = go_on (store_received r.chunks p)

  -- The loop over the batches, with its error, if any. A context that is done counts as an error of
  -- the next request.
  unfoldable pub download :
      (ℕ → List (List ℕ) → Outcome RequestError ChunkResponse)
      → ℕ
      → List (List (List ℕ))
      → Progress
      → Option RequestError × Progress
  unfolding with_response
  download ask n [] p = (none, p)
  download ask n (batch ∷ batches) p =
      with_response (ask n batch) p (λ q. download ask (n + 1) batches q)

  -- From the diff to the end of the download.
  unfoldable pub fetch :
      (List ℕ → Bool)
      → (ℕ → List (List ℕ) → Outcome RequestError ChunkResponse)
      → Differences
      → Disk
      → Option RequestError × Progress
  unfolding download needed_chunks
  fetch stat_fails ask d disk =
      download ask 0 (pieces batch_size (needed_chunks stat_fails disk d))
        (record { disk = disk; puts = 0; downloaded = 0 })
