-- ===== src/Command/Download.antt =====
-- A download from a peer that has the chunks completes the store.
use mathlib.Core.List.{flatten}
use p2p_file_sync.Prelude.{
  ℕ, ◌+◌, ◌≡◌, refl, ap, subst, sym, ◌∙◌, Bool, Option, none, some, List, [], ◌∷◌, ◌++◌, Outcome,
  ok, arith,
}
use p2p_file_sync.Bytes.{Any-All, All-map₂, All-flatten, flatten-All, All, All-map, Any}
use p2p_file_sync.Pieces.{pieces, flatten-pieces}
use p2p_file_sync.Cas.Store.{Disk, Faults, put}
use p2p_file_sync.Cas.Store.Paths.{IsHash, path_of}
use p2p_file_sync.Cas.Store.Puts.{Consistent, put-Consistent}
use p2p_file_sync.Cas.Store.Reads.{no_read_faults}
use p2p_file_sync.Cas.Store.Working.{no_faults, put-no_faults}
use p2p_file_sync.Net.{ProtoChunk, ChunkResponse, RequestError, handle_chunk_request}
use p2p_file_sync.Net.Served.{Found, Carries, handle_chunk_request-Carries}
use p2p_file_sync.ProtoDiff.{Differences}
use p2p_file_sync.Command.{
  Progress, batch_size, missing_chunks, needed_chunks, count_put, received, store_received,
  with_response, download, fetch,
}
use p2p_file_sync.Command.Listed.{listed_all, needed-listed, missing-All, missing-Found}
use p2p_file_sync.Command.Grows.{count_put_disk, put-Grows, store_received-Grows, download-Grows}

module _ (sha256 : List ℕ → List ℕ) (hashes : (x : List ℕ) → IsHash (sha256 x))
    (faults : ℕ → Faults) (working : (n : ℕ) → faults n ≡ no_faults) where
  put-Found :
      (c : ProtoChunk) (p : Progress)
      → Consistent sha256 p.disk
      → Found (count_put (put (faults p.puts) (received sha256 c) p.disk) p).disk (sha256 c.content)
  unfolding received
  put-Found c p old =
      let chunk = received sha256 c in
      let (b, done) = put-no_faults chunk p.disk in
      let (content, at, same) =
        (put-Consistent sha256 no_faults chunk p.disk (hashes c.content) refl old).1 b done in
      (
        content,
        ap (λ (d : Disk). d (path_of (sha256 c.content)))
              (count_put_disk (put (faults p.puts) chunk p.disk) p)
            ∙ ap (λ (f : Faults). (put f chunk p.disk).1 (path_of (sha256 c.content)))
                (working p.puts)
            ∙ at,
      )

  store_received-Found :
      (cs : List ProtoChunk) (p : Progress)
      → Consistent sha256 p.disk
      → All (λ c. Found (store_received sha256 faults cs p).disk (sha256 c.content)) cs
  unfolding store_received
  store_received-Found [] p old = tt
  store_received-Found (c ∷ cs) p old =
      let q = count_put (put (faults p.puts) (received sha256 c) p.disk) p in
      (
        (store_received-Grows sha256 hashes faults cs q).kept (sha256 c.content) (hashes c.content)
            (put-Found c p old),
        store_received-Found cs q ((put-Grows sha256 hashes faults c p).consistent old),
      )

  module _ (server : Disk) (honest : Consistent sha256 server) where
    batch-Found :
        (batch : List (List ℕ)) (p : Progress)
        → All (λ h. IsHash h × Found server h) batch
        → Consistent sha256 p.disk
        → All
            (Found
              (store_received sha256 faults
                (handle_chunk_request (λ k. no_read_faults) server batch).chunks
                p).disk)
            batch
    batch-Found batch p served old =
        let cs = (handle_chunk_request (λ k. no_read_faults) server batch).chunks in
        let disk' = (store_received sha256 faults cs p).disk in
        All-map (λ h. Any (Carries sha256 h) cs) (Found disk')
          (λ h carried.
            Any-All (Carries sha256 h) (λ c. Found disk' (sha256 c.content)) cs
              (λ c same found. subst (Found disk') same.0 found) carried
              (store_received-Found cs p old))
          batch (handle_chunk_request-Carries sha256 server batch honest served)

    module _ (ask : ℕ → List (List ℕ) → Outcome RequestError ChunkResponse)
        (answers : (n : ℕ) (batch : List (List ℕ))
          → ask n batch ≡ ok (handle_chunk_request (λ k. no_read_faults) server batch)) where
      download-Found :
          (n : ℕ) (batches : List (List (List ℕ))) (p : Progress)
          → All (All (λ h. IsHash h × Found server h)) batches
          → Consistent sha256 p.disk
          → ((download sha256 faults ask n batches p).0 ≡ none)
            × All (All (Found (download sha256 faults ask n batches p).1.disk)) batches
      unfolding download
      download-Found n [] p served old = (refl, tt)
      download-Found n (b ∷ bs) p served old =
          let response = handle_chunk_request (λ k. no_read_faults) server b in
          let go_on = λ (x : Progress). download sha256 faults ask (n + 1) bs x in
          let q = store_received sha256 faults response.chunks p in
          let (done, found) =
            download-Found (n + 1) bs q served.1
              ((store_received-Grows sha256 hashes faults response.chunks p).consistent old) in
          subst
            (λ (e : Option RequestError × Progress).
              (e.0 ≡ none) × All (All (Found e.1.disk)) (b ∷ bs))
            (sym (
              ap (λ (r : Outcome RequestError ChunkResponse). with_response sha256 faults r p go_on)
                (answers n b)))
            (unfold with_response in
              (
                done,
                (
                  All-map₂ (λ h. IsHash h × Found server h) (Found q.disk) (Found (go_on q).1.disk)
                      (λ h is found_now.
                        (download-Grows sha256 hashes faults ask (n + 1) bs q).kept h is.0
                          found_now)
                      b served.0 (batch-Found b p served.0 old),
                  found,
                ),
              ))

-- Where a peer answers from a store with every chunk that the new and the changed files of its
-- manifest list, under their hashes of 32 bytes, both stores have the contents that they are named
-- for, hashes have 32 bytes, and no call fails, the download returns no error, and every one of these
-- chunks is in the local store, with content of its hash. os.Stat may fail before the download; then
-- the chunk is asked for.
pub fetch-Found :
    (sha256 : List ℕ → List ℕ) (faults : ℕ → Faults) (stat_fails : List ℕ → Bool)
    (ask : ℕ → List (List ℕ) → Outcome RequestError ChunkResponse) (d : Differences)
    (disk server : Disk)
    → ((x : List ℕ) → IsHash (sha256 x))
    → ((n : ℕ) → faults n ≡ no_faults)
    → Consistent sha256 disk
    → Consistent sha256 server
    → All (λ h. IsHash h × Found server h) (listed_all d.added ++ listed_all d.modified)
    → ((n : ℕ) (batch : List (List ℕ))
        → ask n batch ≡ ok (handle_chunk_request (λ k. no_read_faults) server batch))
    → ((fetch sha256 faults stat_fails ask d disk).0 ≡ none)
      × All
          (λ h.
            (c : List ℕ) × ((fetch sha256 faults stat_fails ask d disk).1.disk (path_of h) ≡ some c)
            × (sha256 c ≡ h))
          (listed_all d.added ++ listed_all d.modified)
unfolding fetch
fetch-Found sha256 faults stat_fails ask d disk server hashes working old honest served answers =
    let all = listed_all d.added ++ listed_all d.modified in
    let needed = needed_chunks stat_fails disk d in
    let fresh : Progress = record { disk = disk; puts = 0; downloaded = 0 } in
    let after = download sha256 faults ask 0 (pieces batch_size needed) fresh in
    let same : needed ≡ missing_chunks stat_fails disk all = needed-listed stat_fails disk d in
    let wanted : All (λ h. IsHash h × Found server h) needed =
      subst (All (λ h. IsHash h × Found server h)) (sym same)
        (missing-All stat_fails disk (λ h. IsHash h × Found server h) all served) in
    let cut : flatten (pieces batch_size needed) ≡ needed =
      flatten-pieces batch_size needed (omega arith) in
    let (done, found) =
      download-Found sha256 hashes faults working server honest ask answers 0
        (pieces batch_size needed) fresh
        (flatten-All (λ h. IsHash h × Found server h) (pieces batch_size needed)
          (subst (All (λ h. IsHash h × Found server h)) (sym cut) wanted))
        old in
    let grows = download-Grows sha256 hashes faults ask 0 (pieces batch_size needed) fresh in
    let is : All IsHash all =
      All-map (λ h. IsHash h × Found server h) IsHash (λ h x. x.0) all served in
    (
      done,
      All-map₂ IsHash (Found after.1.disk)
          (λ h. (c : List ℕ) × (after.1.disk (path_of h) ≡ some c) × (sha256 c ≡ h))
          (λ h hash at. (at.0, at.1, grows.consistent old h at.0 hash at.1)) all is
          (missing-Found stat_fails disk after.1.disk all is grows.kept (
            subst (All (Found after.1.disk)) (cut ∙ same)
              (All-flatten (Found after.1.disk) (pieces batch_size needed) found))),
    )
