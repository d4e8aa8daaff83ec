-- ===== src/Assoc.antt =====
-- Go maps with string keys, as association lists; a string is the list of its bytes.
use p2p_file_sync.Prelude.{
  ℕ, ◌≡◌, ◌≢◌, refl, sym, ◌∙◌, subst, some-cancel, false, Bool-cases, inl, inr, Option, none, some,
  List, [], ◌∷◌, if◌then◌else◌, if-cases,
}
use p2p_file_sync.Bytes.{All, bytes_equal, bytes_equal→eq, bytes_equal_refl}

pub bytes_equal_ne : (x y : List ℕ) → x ≢ y → bytes_equal x y ≡ false
bytes_equal_ne x y h = elim (Bool-cases (bytes_equal x y)) [
  | inl e ↦ absurd (h (bytes_equal→eq x y e))
  | inr e ↦ e
]

module _ {V : Type 0} where
  -- `m[k]`
  unfoldable pub find : List ℕ → List (List ℕ × V) → Option V
  find k [] = none
  find k ((j, v) ∷ m) = if bytes_equal j k then some v else find k m

  -- `m[k] = v`
  unfoldable pub store : List ℕ → V → List (List ℕ × V) → List (List ℕ × V)
  store k v [] = (k, v) ∷ []
  store k v ((j, w) ∷ m) = if bytes_equal j k then (k, v) ∷ m else (j, w) ∷ store k v m

  -- `delete(m, k)`
  unfoldable pub discard : List ℕ → List (List ℕ × V) → List (List ℕ × V)
  discard k [] = []
  discard k ((j, w) ∷ m) = let rest = discard k m in if bytes_equal j k then rest else (j, w) ∷ rest

module _ {V : Type 0} where
  pub find-store_self : (k : List ℕ) (v : V) (m : List (List ℕ × V)) → find k (store k v m) ≡ some v
  unfolding find store
  find-store_self k v [] = rw (bytes_equal_refl k) refl
  find-store_self k v ((j, w) ∷ m) =
      if-cases (λ (t : List (List ℕ × V)). find k t ≡ some v) (bytes_equal j k) _ _
        (λ e. rw (bytes_equal_refl k) refl) (λ e. rw e (find-store_self k v m))

  pub find-store_other :
      (k i : List ℕ) (v : V) (m : List (List ℕ × V)) → k ≢ i → find i (store k v m) ≡ find i m
  unfolding find store
  find-store_other k i v [] h = rw (bytes_equal_ne k i h) refl
  find-store_other k i v ((j, w) ∷ m) h =
      if-cases (λ (t : List (List ℕ × V)). find i t ≡ find i ((j, w) ∷ m)) (bytes_equal j k) _ _
        (λ e.
          rw (bytes_equal_ne k i h, bytes_equal_ne j i (λ q. h (sym (bytes_equal→eq j k e) ∙ q)))
            refl)
        (λ e. rw (find-store_other k i v m h) refl)

  pub find-discard_self : (k : List ℕ) (m : List (List ℕ × V)) → find k (discard k m) ≡ none
  unfolding find discard
  find-discard_self k [] = refl
  find-discard_self k ((j, w) ∷ m) =
      if-cases (λ (t : List (List ℕ × V)). find k t ≡ none) (bytes_equal j k) _ _
        (λ e. find-discard_self k m) (λ e. rw e (find-discard_self k m))

  pub find-discard_other :
      (k i : List ℕ) (m : List (List ℕ × V)) → k ≢ i → find i (discard k m) ≡ find i m
  unfolding find discard
  find-discard_other k i [] h = refl
  find-discard_other k i ((j, w) ∷ m) h =
      if-cases (λ (t : List (List ℕ × V)). find i t ≡ find i ((j, w) ∷ m)) (bytes_equal j k) _ _
        (λ e.
          find-discard_other k i m h
          ∙ rw (bytes_equal_ne j i (λ q. h (sym (bytes_equal→eq j k e) ∙ q))) refl)
        (λ e. rw (find-discard_other k i m h) refl)

  -- A property of all entries.
  pub store-All :
      (P : List ℕ × V → Type 0) (k : List ℕ) (v : V) (m : List (List ℕ × V))
      → P (k, v)
      → All P m
      → All P (store k v m)
  unfolding store
  store-All P k v [] p h = (p, tt)
  store-All P k v ((j, w) ∷ m) p (h, hs) =
      if-cases (All P) (bytes_equal j k) _ _ (λ e. (p, hs)) (λ e. (h, store-All P k v m p hs))

  pub discard-All :
      (P : List ℕ × V → Type 0) (k : List ℕ) (m : List (List ℕ × V)) → All P m → All P (discard k m)
  unfolding discard
  discard-All P k [] h = tt
  discard-All P k ((j, w) ∷ m) (h, hs) =
      if-cases (All P) (bytes_equal j k) _ _ (λ e. discard-All P k m hs)
        (λ e. (h, discard-All P k m hs))

  pub find-All :
      (P : List ℕ × V → Type 0) (k : List ℕ) (m : List (List ℕ × V)) (v : V)
      → All P m
      → find k m ≡ some v
      → (j : List ℕ) × (P (j, v))
  unfolding find
  find-All P k [] v h e = cc
  find-All P k ((j, w) ∷ m) v (h, hs) e = elim (Bool-cases (bytes_equal j k)) [
    | inl b ↦ (j, subst (λ (x : V). P (j, x)) (some-cancel (rw b at e)) h)
    | inr b ↦ find-All P k m v hs (rw b at e)
  ]
