-- ===== src/Net/Sync/Forged.antt =====
-- SyncWithPeer stores what a peer sends under any hash that it names.
use p2p_file_sync.Prelude.{
  ℕ, ◌+◌, ◌≡◌, ◌≢◌, refl, sym, ap, ◌∙◌, inl, inr, Bool, Option, none, some, List, [], ◌∷◌, length,
  Outcome, ok, err, ok≢err,
}
use p2p_file_sync.Cas.Store.{Disk, Faults, StoreError, put}
use p2p_file_sync.Cas.Store.Paths.{IsHash, path_of}
use p2p_file_sync.Cas.Store.Puts.{Consistent, Atomic, put-Atomic}
use p2p_file_sync.Cas.Store.Working.{no_faults, put-no_faults}
use p2p_file_sync.Net.{ProtoChunk}
use p2p_file_sync.Net.Sync.{State, SyncError, sent, after_put, store_chunks}

after_put-ok :
    (c : ProtoChunk) (out : Outcome StoreError Bool × Disk) (s : State)
    (go_on : State → Option SyncError × State) (b : Bool)
    → out.0 ≡ ok b
    → after_put c out s go_on
      ≡ go_on (record {
        result = record s.result {
          chunks_fetched = s.result.chunks_fetched + 1;
          bytes_fetched = s.result.bytes_fetched + length c.content;
        };
        disk = out.1;
      })
unfolding after_put
after_put-ok c (ok a, disk) s go_on b h = refl
after_put-ok c (err e, disk) s go_on b h = cc

stored :
    (hash content : List ℕ) (disk : Disk) (out : Outcome StoreError Bool × Disk) (b : Bool)
    → Atomic hash content disk out
    → out.0 ≡ ok b
    → disk (path_of hash) ≡ none
    → out.1 (path_of hash) ≡ some content
stored hash content disk out b (inl k) done gone = elim k.result [
  | inl (e, failed) ↦ absurd (ok≢err (sym done ∙ failed))
  | inr (kept, (c, found)) ↦ cc
]
stored hash content disk out b (inr s) done gone = s.stored

-- A chunk of a response that is not in the store, with a content that does not have the hash that it
-- is sent under, of 32 bytes, is stored without an error, where no call fails; then the store has a
-- file of which the content is not that of its name.
pub store_chunks-forged :
    (sha256 : List ℕ → List ℕ) (faults : ℕ → Faults) (c : ProtoChunk) (s : State)
    → ((n : ℕ) → faults n ≡ no_faults)
    → IsHash c.hash
    → s.disk (path_of c.hash) ≡ none
    → sha256 c.content ≢ c.hash
    → ((store_chunks faults (c ∷ []) s).0 ≡ none)
      × (¬ Consistent sha256 (store_chunks faults (c ∷ []) s).1.disk)
unfolding store_chunks
store_chunks-forged sha256 faults c s working is gone forged =
    let k = s.result.chunks_fetched in
    let out = put (faults k) (sent c) s.disk in
    let (b, fine) = put-no_faults (sent c) s.disk in
    let done : out.0 ≡ ok b = ap (λ (f : Faults). (put f (sent c) s.disk).0) (working k) ∙ fine in
    let e = after_put-ok c out s (λ t. store_chunks faults [] t) b done in
    let at : out.1 (path_of c.hash) ≡ some c.content =
      stored c.hash c.content s.disk out b (unfold sent in put-Atomic (faults k) (sent c) s.disk is)
        done gone in
    (
      ap (λ (t : Option SyncError × State). t.0) e,
      λ consistent. forged (
          consistent c.hash c.content is
            (ap (λ (t : Option SyncError × State). t.1.disk (path_of c.hash)) e ∙ at)),
    )
