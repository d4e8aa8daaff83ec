-- ===== src/Nat/Stun/Checks.antt =====
-- No response is accepted that is not one to the request.
use p2p_file_sync.Prelude.{
  ℕ, ◌≡◌, refl, Bool, true, false, Bool-cases, ◌==◌, ==_iff, ltb, inl, inr, List, length, take,
  drop, Outcome, ok, err, if◌then◌else◌,
}
use p2p_file_sync.Bytes.{get_uint, bytes_equal→eq}
use p2p_file_sync.Nat.Stun.{
  MappedAddress, stun_binding_response, stun_magic_cookie, transaction_matches, parse_header,
  parse_stun_response,
}

-- A result that is no error has passed a test whose other branch is an error.
passed :
    {A : Type 0} {B : Type 0} (b : Bool) (x : Outcome A B) (e : A) (a : B)
    → (if b then x else err e) ≡ ok a
    → (b ≡ true) × (x ≡ ok a)
passed true x e a h = (refl, h)
passed false x e a h = cc

stopped :
    {A : Type 0} {B : Type 0} (b : Bool) (x : Outcome A B) (e : A) (a : B)
    → (if b then err e else x) ≡ ok a
    → (b ≡ false) × (x ≡ ok a)
stopped true x e a h = cc
stopped false x e a h = (refl, h)

transaction_matches-twelve :
    (received expected : List ℕ)
    → length expected ≡ 12
    → transaction_matches received expected ≡ true
    → received ≡ expected
unfolding transaction_matches
transaction_matches-twelve received expected h e =
    bytes_equal→eq received expected (rw ((==_iff (length expected) 12).1 h) at e)

parse_header-ok :
    (n : ℕ) (cookie transaction_id body expected : List ℕ) (a : MappedAddress)
    → length expected ≡ 12
    → parse_header n cookie transaction_id body expected ≡ ok a
    → (get_uint cookie ≡ stun_magic_cookie) × (transaction_id ≡ expected)
unfolding parse_header
parse_header-ok n cookie transaction_id body expected a twelve h =
    let (magic, rest) = passed (get_uint cookie == stun_magic_cookie) _ _ a h in
    let (matching, parsed) = passed (transaction_matches transaction_id expected) _ _ a rest in
    (
      (==_iff (get_uint cookie) stun_magic_cookie).0 magic,
      transaction_matches-twelve transaction_id expected twelve matching,
    )

no_branch :
    {A : Type 0} {B : Type 0} (b : Bool) (e f : A) (a : B)
    → ¬ (◌≡◌ {A = Outcome A B} (if b then err e else err f) (ok a))
no_branch true e f a h = cc
no_branch false e f a h = cc

-- Where the parser returns an address for an expected transaction of 12 bytes, the message has at
-- least 20 bytes, is a binding response, and carries the magic cookie and that transaction.
pub parse_stun_response-ok :
    (bytes expected : List ℕ) (a : MappedAddress)
    → length expected ≡ 12
    → parse_stun_response bytes expected ≡ ok a
    → (ltb (length bytes) 20 ≡ false)
      × (get_uint (take 2 bytes) ≡ stun_binding_response)
      × (get_uint (take 4 (drop 4 bytes)) ≡ stun_magic_cookie)
      × (take 12 (drop 8 bytes) ≡ expected)
unfolding parse_stun_response
parse_stun_response-ok bytes expected a twelve h =
    let (long, typed) = stopped (ltb (length bytes) 20) _ _ a h in
    elim (Bool-cases (get_uint (take 2 bytes) == stun_binding_response)) [
      | inl e ↦
          let (magic, transaction) =
            parse_header-ok (get_uint (take 2 (drop 2 bytes))) (take 4 (drop 4 bytes))
              (take 12 (drop 8 bytes)) (drop 20 bytes) expected a twelve (rw e at typed) in
          (long, (==_iff (get_uint (take 2 bytes)) stun_binding_response).0 e, magic, transaction)
      | inr e ↦ absurd (no_branch _ _ _ a (rw e at typed))
    ]
