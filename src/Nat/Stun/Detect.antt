-- ===== src/Nat/Stun/Detect.antt =====
-- What DetectNATType compares.
use p2p_file_sync.Prelude.{
  ℕ, ◌≡◌, refl, ap, ◌∙◌, Bool, true, false, ==_iff, List, ◌∷◌, Outcome, ok, err,
}
use p2p_file_sync.Nat.Stun.{
  MappedAddress, QueryError, all_failed, or_else, discover, discover_with_new_conn, same_mapping,
  compare_second, detect_nat_type,
}

-- Where a socket can be opened, the first server fails and the second answers, DetectNATType asks the second twice: it finds
-- a cone, whatever mapping the translator uses for other destinations, provided that the second
-- server gives the same answer again and net.IP.Equal is reflexive.
pub detect_nat_type-fallback :
    {Server : Type 0} (query : Server → Outcome QueryError MappedAddress)
    (ip_equal : List ℕ → List ℕ → Bool) (first second : Server) (servers : List Server)
    (e : QueryError) (a : MappedAddress)
    → ((ip : List ℕ) → ip_equal ip ip ≡ true)
    → query first ≡ err e
    → query second ≡ ok a
    → detect_nat_type query ip_equal false (first ∷ second ∷ servers) ≡ ok true
unfolding detect_nat_type compare_second discover_with_new_conn discover same_mapping
detect_nat_type-fallback query ip_equal first second servers e a reflexive failed answered =
    ap
      (λ (x : Outcome QueryError MappedAddress).
        compare_second query ip_equal second
          (or_else x (λ e. discover query (all_failed e) (second ∷ servers))))
      failed
    ∙ ap
        (λ (x : Outcome QueryError MappedAddress).
          compare_second query ip_equal second
            (or_else x (λ e. discover query (all_failed e) servers)))
        answered
    ∙ ap (same_mapping query ip_equal a) answered
    ∙ rw (reflexive a.ip, (==_iff a.port a.port).1 refl) refl
