-- ===== src/Command/Grows.antt =====
-- A download never damages the store, whatever the peer answers.
use p2p_file_sync.Prelude.{
  ℕ, ◌+◌, ◌≡◌, refl, subst, sym, Bool, Option, List, [], ◌∷◌, Outcome, ok, err,
}
use p2p_file_sync.Pieces.{pieces}
use p2p_file_sync.Cas.Store.{Disk, Faults, StoreError, put}
use p2p_file_sync.Cas.Store.Paths.{IsHash}
use p2p_file_sync.Cas.Store.Puts.{Consistent, put-Atomic, put-Consistent}
use p2p_file_sync.Net.{ProtoChunk, ChunkResponse, RequestError}
use p2p_file_sync.Net.Served.{Found, Atomic-Found}
use p2p_file_sync.ProtoDiff.{Differences}
use p2p_file_sync.Command.{
  Progress, batch_size, needed_chunks, count_put, received, store_received, with_response, download,
  fetch,
}

-- Content stays under its hash, and no chunk is lost.
pub record Grows (sha256 : List ℕ → List ℕ) (disk disk' : Disk) : Type 0 where
  pub consistent : Consistent sha256 disk → Consistent sha256 disk'
  pub kept : (h : List ℕ) → IsHash h → Found disk h → Found disk' h

pub count_put_disk :
    (out : Outcome StoreError Bool × Disk) (p : Progress) → (count_put out p).disk ≡ out.1
unfolding count_put
count_put_disk (ok b, disk) p = refl
count_put_disk (err e, disk) p = refl

module _ (sha256 : List ℕ → List ℕ) (hashes : (x : List ℕ) → IsHash (sha256 x)) where
  Grows-refl : (disk : Disk) → Grows sha256 disk disk
  Grows-refl disk = record { consistent = λ h. h; kept = λ h is found. found }

  pub Grows-trans : (d e f : Disk) → Grows sha256 d e → Grows sha256 e f → Grows sha256 d f
  Grows-trans d e f g h = record {
    consistent = λ old. h.consistent (g.consistent old);
    kept = λ k is found. h.kept k is (g.kept k is found);
  }

  module _ (faults : ℕ → Faults) where
    pub put-Grows :
        (c : ProtoChunk) (p : Progress)
        → Grows sha256 p.disk (count_put (put (faults p.puts) (received sha256 c) p.disk) p).disk
    unfolding received
    put-Grows c p =
        let chunk = received sha256 c in
        subst (λ (d : Disk). Grows sha256 p.disk d)
          (sym (count_put_disk (put (faults p.puts) chunk p.disk) p))
          (record {
            consistent = λ old.
                (put-Consistent sha256 (faults p.puts) chunk p.disk (hashes c.content) refl old).0;
            kept = λ h is found.
                Atomic-Found chunk.hash chunk.content h p.disk (put (faults p.puts) chunk p.disk) is
                  (put-Atomic (faults p.puts) chunk p.disk (hashes c.content)) found;
          })

    pub store_received-Grows :
        (cs : List ProtoChunk) (p : Progress)
        → Grows sha256 p.disk (store_received sha256 faults cs p).disk
    unfolding store_received
    store_received-Grows [] p = Grows-refl p.disk
    store_received-Grows (c ∷ cs) p =
        let q = count_put (put (faults p.puts) (received sha256 c) p.disk) p in
        Grows-trans p.disk q.disk (store_received sha256 faults cs q).disk (put-Grows c p)
          (store_received-Grows cs q)

    with_response-Grows :
        (r : Outcome RequestError ChunkResponse) (p : Progress)
        (go_on : Progress → Option RequestError × Progress)
        → ((q : Progress) → Grows sha256 q.disk (go_on q).1.disk)
        → Grows sha256 p.disk (with_response sha256 faults r p go_on).1.disk
    unfolding with_response
    with_response-Grows (err e) p go_on h = Grows-refl p.disk
    with_response-Grows (ok r) p go_on h =
        let q = store_received sha256 faults r.chunks p in
        Grows-trans p.disk q.disk (go_on q).1.disk (store_received-Grows r.chunks p) (h q)

    pub download-Grows :
        (ask : ℕ → List (List ℕ) → Outcome RequestError ChunkResponse) (n : ℕ)
        (batches : List (List (List ℕ))) (p : Progress)
        → Grows sha256 p.disk (download sha256 faults ask n batches p).1.disk
    unfolding download
    download-Grows ask n [] p = Grows-refl p.disk
    download-Grows ask n (b ∷ bs) p =
        with_response-Grows (ask n b) p (λ q. download sha256 faults ask (n + 1) bs q)
          (λ q. download-Grows ask (n + 1) bs q)

-- Whatever a peer answers, and whichever calls fail, the download keeps a store whose chunk files have
-- the contents that they are named for, and loses no chunk that was there; where hashes have 32 bytes.
pub fetch-Grows :
    (sha256 : List ℕ → List ℕ) (faults : ℕ → Faults) (stat_fails : List ℕ → Bool)
    (ask : ℕ → List (List ℕ) → Outcome RequestError ChunkResponse) (d : Differences) (disk : Disk)
    → ((x : List ℕ) → IsHash (sha256 x))
    → Grows sha256 disk (fetch sha256 faults stat_fails ask d disk).1.disk
unfolding fetch
fetch-Grows sha256 faults stat_fails ask d disk hashes =
    download-Grows sha256 hashes faults ask 0 (pieces batch_size (needed_chunks stat_fails disk d))
      (record { disk = disk; puts = 0; downloaded = 0 })
