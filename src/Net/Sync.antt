-- ===== src/Net/Sync.antt =====
-- internal/net/sync.go: SyncManager.SyncWithPeer. A tree without a root is `none`; the ID of the peer,
-- which the result carries, is left out. The workers, which no part of the program calls, are not
-- modelled.
pub mod Wanted
pub mod Forged
pub mod Panics
pub mod Manifests
mod Tests
use p2p_file_sync.Prelude.{
  ℕ, ◌+◌, Bool, true, false, Option, none, some, List, [], ◌∷◌, ◌++◌, length, if◌then◌else◌,
  Outcome, ok, err,
}
use p2p_file_sync.Bytes.{bytes_equal}
use p2p_file_sync.Pieces.{pieces}
use p2p_file_sync.Cas.Chunker.{Chunk}
use p2p_file_sync.Cas.Store.{Disk, Faults, StoreError, put}
use p2p_file_sync.Merkle.{Node, info}
use p2p_file_sync.Merkle.Diff.{
  DiffResult, DiffType, diff_type_added, diff_type_deleted, diff_type_modified, diff,
}
use p2p_file_sync.Proto.Nodes.{ProtoNode, manifest_to_node}
use p2p_file_sync.Net.{
  ProtoChunk, ChunkResponse, RequestError, ManifestResponse, no_response, response,
}

-- `const batchSize = 16`
abbrev pub batch_size : ℕ
batch_size = 16

-- SyncResult
pub record SyncResult : Type 0 where
  pub already_in_sync : Bool
  pub diffs : ℕ
  pub chunks_needed : ℕ
  pub chunks_fetched : ℕ
  pub chunks_not_found : ℕ
  pub bytes_fetched : ℕ

abbrev pub new_result : SyncResult
new_result = record {
  already_in_sync = false;
  diffs = 0;
  chunks_needed = 0;
  chunks_fetched = 0;
  chunks_not_found = 0;
  bytes_fetched = 0;
}

pub record State : Type 0 where
  pub result : SyncResult
  pub disk : Disk

pub data SyncError : Type 0 where
  requesting : RequestError → SyncError
  storing : StoreError → SyncError

-- How SyncWithPeer ends: with a nil result and an error, or with its result and an error, if any.
pub data Synced : Type 0 where
  panics : Synced
  fails : RequestError → Synced
  returns : Option SyncError → State → Synced

-- The chunks of a difference that are fetched.
unfoldable pub wanted_for : DiffType → List (List ℕ) → List (List ℕ)
wanted_for diff_type_added chunks = []
wanted_for diff_type_deleted chunks = chunks
wanted_for diff_type_modified chunks = chunks

unfoldable pub chunks_to_fetch : List DiffResult → List (List ℕ)
unfolding wanted_for
chunks_to_fetch [] = []
chunks_to_fetch (d ∷ ds) = wanted_for d.diff_type d.differing ++ chunks_to_fetch ds

-- The chunk is stored under the hash that the peer has sent with it.
unfoldable pub sent : ProtoChunk → Chunk
sent c = record { hash = c.hash; size = c.size; content = c.content }

unfoldable pub after_put :
    ProtoChunk
    → Outcome StoreError Bool × Disk
    → State
    → (State → Option SyncError × State)
    → Option SyncError × State
after_put c (err e, disk) s go_on = (some (storing e), record s { disk = disk })
after_put c (ok b, disk) s go_on =
    let fetched = record s.result {
      chunks_fetched = s.result.chunks_fetched + 1;
      bytes_fetched = s.result.bytes_fetched + length c.content;
    } in
    go_on (record { result = fetched; disk = disk })

-- The loop over the chunks of a response. `faults` tells which calls fail in each Put.
unfoldable pub store_chunks : (ℕ → Faults) → List ProtoChunk → State → Option SyncError × State
unfolding sent after_put
store_chunks faults [] s = (none, s)
store_chunks faults (c ∷ cs) s =
    after_put c (put (faults s.result.chunks_fetched) (sent c) s.disk) s
      (λ t. store_chunks faults cs t)

unfoldable pub count_not_found :
    ℕ → Option SyncError × State → (State → Option SyncError × State) → Option SyncError × State
count_not_found n (some e, s) go_on = (some e, s)
count_not_found n (none, s) go_on =
    let counted = record s.result { chunks_not_found = s.result.chunks_not_found + n } in
    go_on (record s { result = counted })

unfoldable pub with_chunks :
    (ℕ → Faults)
    → Outcome RequestError ChunkResponse
    → State
    → (State → Option SyncError × State)
    → Option SyncError × State
unfolding store_chunks count_not_found
with_chunks faults (err e) s go_on = (some (requesting e), s)
with_chunks faults (ok r) s go_on =
    count_not_found (length r.not_found) (store_chunks faults r.chunks s) go_on

-- The loop over the batches. `ask` is what RequestChunks returns for each request.
unfoldable pub fetch_batches :
    (ℕ → Faults)
    → (ℕ → List (List ℕ) → Outcome RequestError ChunkResponse)
    → ℕ
    → List (List (List ℕ))
    → State
    → Option SyncError × State
unfolding with_chunks
fetch_batches faults ask n [] s = (none, s)
fetch_batches faults ask n (batch ∷ batches) s =
    with_chunks faults (ask n batch) s (λ t. fetch_batches faults ask (n + 1) batches t)

unfoldable pub remote_root : Option ProtoNode → Option Node
remote_root none = none
remote_root (some n) = some (manifest_to_node n)

unfoldable pub returned : Option SyncError × State → Synced
returned (e, s) = returns e s

-- SyncWithPeer from the diff on. Where nothing is to be fetched, there is no batch.
unfoldable pub after_diff :
    (ℕ → Faults)
    → (ℕ → List (List ℕ) → Outcome RequestError ChunkResponse)
    → Disk
    → List DiffResult
    → Synced
unfolding fetch_batches returned chunks_to_fetch
after_diff faults ask disk results =
    let needed = chunks_to_fetch results in
    returned (
      fetch_batches faults ask 0 (pieces batch_size needed) (record {
        result = record new_result { diffs = length results; chunks_needed = length needed };
        disk = disk;
      }))

-- SyncWithPeer from the response with the manifest on.
unfoldable pub after_manifest :
    (ℕ → Faults)
    → (ℕ → List (List ℕ) → Outcome RequestError ChunkResponse)
    → Option Node
    → Disk
    → Outcome RequestError ManifestResponse
    → Synced
unfolding remote_root after_diff
after_manifest faults ask tree disk (err e) = fails e
after_manifest faults ask tree disk (ok no_response) = panics
after_manifest faults ask tree disk (ok (response root)) =
    after_diff faults ask disk (diff tree (remote_root root))

-- `Check if we're already in sync`; the root of the peer may be nil.
unfoldable pub in_sync : Option Node → Option (List ℕ) → Bool
in_sync none peer_root = false
in_sync (some n) none = false
in_sync (some n) (some h) = bytes_equal (info n).hash h

-- SyncWithPeer, where `manifest` is what requestManifest returns.
unfoldable pub sync_with_peer :
    (ℕ → Faults)
    → (ℕ → List (List ℕ) → Outcome RequestError ChunkResponse)
    → Option Node
    → Option (List ℕ)
    → Outcome RequestError ManifestResponse
    → Disk
    → Synced
unfolding in_sync after_manifest
sync_with_peer faults ask tree peer_root manifest disk =
    if in_sync tree peer_root
    then returns none
        (record { result = record new_result { already_in_sync = true }; disk = disk })
    else after_manifest faults ask tree disk manifest
