-- ===== src/Net/Served.antt =====
-- What a store serves, and what a store keeps.
use p2p_file_sync.Prelude.{
  ℕ, ◌≡◌, refl, ap, subst, sym, ◌∙◌, inl, inr, Bool-cases, some, List, [], ◌∷◌, Outcome,
}
use p2p_file_sync.Bytes.{All, Any, All-map, bytes_equal, bytes_equal→eq, bytes_equal_refl}
use p2p_file_sync.Cas.Chunker.{Chunk}
use p2p_file_sync.Cas.Store.{Disk, GetError}
use p2p_file_sync.Cas.Store.Paths.{IsHash, path_of}
use p2p_file_sync.Cas.Store.Puts.{Consistent, Atomic}
use p2p_file_sync.Cas.Store.Reads.{no_read_faults, get-at}
use p2p_file_sync.Net.{ProtoChunk, ChunkResponse, add_answer, handle_chunk_request}

-- The store has the file of a hash.
abbrev pub Found : Disk → List ℕ → Type 0
Found disk hash = (c : List ℕ) × (disk (path_of hash) ≡ some c)

-- The content of a chunk of a response has the hash.
abbrev pub Carries : (List ℕ → List ℕ) → List ℕ → ProtoChunk → Type 0
Carries sha256 hash chunk = (sha256 chunk.content ≡ hash) × (chunk.hash ≡ hash)

-- HandleChunkRequest, on a store whose chunk files have the contents that they are named for, with no
-- call failing, answers every hash that it has with content of this hash.
pub handle_chunk_request-Carries :
    (sha256 : List ℕ → List ℕ) (disk : Disk) (hashes : List (List ℕ))
    → Consistent sha256 disk
    → All (λ h. IsHash h × Found disk h) hashes
    → All
        (λ h.
          Any (Carries sha256 h) (handle_chunk_request (λ k. no_read_faults) disk hashes).chunks)
        hashes
unfolding handle_chunk_request
handle_chunk_request-Carries sha256 disk [] old has_all = tt
handle_chunk_request-Carries sha256 disk (h ∷ hs) old ((is, (c, at)), more) =
    let rest = handle_chunk_request (λ k. no_read_faults) disk hs in
    subst
      (λ (r : ChunkResponse).
        Any (Carries sha256 h) r.chunks × All (λ k. Any (Carries sha256 k) r.chunks) hs)
      (sym (ap (λ (o : Outcome GetError Chunk). add_answer h o rest) (get-at h c disk at)))
      (unfold add_answer in
        (
          inl (old h c is at, refl),
          All-map (λ k. Any (Carries sha256 k) rest.chunks) _ (λ k found. inr found) hs
              (handle_chunk_request-Carries sha256 disk hs old more),
        ))

-- Put that leaves a file leaves it with the content that it has.
pub Atomic-Found :
    (hash content other : List ℕ) (disk : Disk) (out : _)
    → IsHash other
    → Atomic hash content disk out
    → Found disk other
    → Found out.1 other
Atomic-Found hash content other disk out is (inl k) (c, at) = (c, k.same other is ∙ at)
Atomic-Found hash content other disk out is (inr s) (c, at) =
    elim (Bool-cases (bytes_equal other hash)) [
      | inl e ↦
          (content, ap (λ (x : List ℕ). out.1 (path_of x)) (bytes_equal→eq other hash e) ∙ s.stored)
      | inr e ↦ (
        c,
        s.others other is (λ same. cc (e, bytes_equal_refl other, ap (bytes_equal other) same))
            ∙ at,
      )
    ]
