-- ===== src/Pieces.antt =====
-- A file cut into blocks of a fixed size, the last one perhaps shorter: what both the signature of
-- internal/delta and the chunker of internal/cas are to make of a file.
use mathlib.Core.List.{flatten}
use p2p_file_sync.Prelude.{
  ℕ, zero, suc, ◌≤◌, ◌<◌, ◌≡◌, refl, ap, ap₂, take_all, drop_all, ◌∙◌, List, [], ◌∷◌, ◌++◌, arith,
  length, take, drop, length-take, length-drop, take-append-drop,
}
use p2p_file_sync.Bytes.{All}

module _ {A : Type 0} where
  abbrev pieces_fuel : ℕ → ℕ → List A → List (List A)
  pieces_fuel zero n xs = []
  pieces_fuel (suc f) n [] = []
  pieces_fuel (suc f) n (x ∷ xs) = take n (x ∷ xs) ∷ pieces_fuel f n (drop n (x ∷ xs))

  -- The blocks of `n` bytes that make up the file. There are at most as many as bytes.
  unfoldable pub pieces : ℕ → List A → List (List A)
  pieces n xs = pieces_fuel (length xs) n xs

  pieces_fuel-enough :
      (f g n : ℕ) (xs : List A)
      → 0 < n
      → length xs ≤ f
      → length xs ≤ g
      → pieces_fuel f n xs ≡ pieces_fuel g n xs
  pieces_fuel-enough zero zero n xs h hf hg = refl
  pieces_fuel-enough zero (suc g) n [] h hf hg = refl
  pieces_fuel-enough zero (suc g) n (x ∷ xs) h hf hg = absurd (omega arith)
  pieces_fuel-enough (suc f) zero n [] h hf hg = refl
  pieces_fuel-enough (suc f) zero n (x ∷ xs) h hf hg = absurd (omega arith)
  pieces_fuel-enough (suc f) (suc g) n [] h hf hg = refl
  pieces_fuel-enough (suc f) (suc g) n (x ∷ xs) h hf hg =
      ap (λ (t : List (List A)). take n (x ∷ xs) ∷ t)
        (pieces_fuel-enough f g n (drop n (x ∷ xs)) h (omega (arith, length-drop n (x ∷ xs)))
          (omega (arith, length-drop n (x ∷ xs))))

  -- The first block is the first `n` bytes.
  pub pieces_cons :
      (n : ℕ) (x : A) (xs : List A)
      → 0 < n
      → pieces n (x ∷ xs) ≡ take n (x ∷ xs) ∷ pieces n (drop n (x ∷ xs))
  unfolding pieces
  pieces_cons n x xs h =
      ap (λ (t : List (List A)). take n (x ∷ xs) ∷ t)
        (pieces_fuel-enough (length xs) (length (drop n (x ∷ xs))) n (drop n (x ∷ xs)) h
          (omega (arith, length-drop n (x ∷ xs))) (omega arith))

  -- The last block, of fewer than `n` bytes.
  pub pieces_last :
      (n : ℕ) (x : A) (xs : List A) → length (x ∷ xs) ≤ n → pieces n (x ∷ xs) ≡ (x ∷ xs) ∷ []
  unfolding pieces
  pieces_last n x xs h =
      pieces_cons n x xs (omega arith)
      ∙ ap₂ (λ (t : List A) (u : List (List A)). t ∷ u) (take_all n (x ∷ xs) h)
          (ap (pieces n) (drop_all n (x ∷ xs) h))

  flatten_fuel : (f n : ℕ) (xs : List A) → 0 < n → length xs ≤ f → flatten (pieces_fuel f n xs) ≡ xs
  unfolding flatten
  flatten_fuel zero n [] h hf = refl
  flatten_fuel zero n (x ∷ xs) h hf = absurd (omega arith)
  flatten_fuel (suc f) n [] h hf = refl
  flatten_fuel (suc f) n (x ∷ xs) h hf =
      ap (λ (t : List A). take n (x ∷ xs) ++ t)
        (flatten_fuel f n (drop n (x ∷ xs)) h (omega (arith, length-drop n (x ∷ xs))))
      ∙ take-append-drop n (x ∷ xs)

  -- The blocks put together are the file.
  pub flatten-pieces : (n : ℕ) (xs : List A) → 0 < n → flatten (pieces n xs) ≡ xs
  unfolding pieces
  flatten-pieces n xs h = flatten_fuel (length xs) n xs h (omega arith)

  -- Every block has between 1 and `n` bytes.
  abbrev pub IsBlock : ℕ → List A → Type 0
  IsBlock n p = (0 < length p) × (length p ≤ n)

  fuel-IsBlock : (f n : ℕ) (xs : List A) → 0 < n → All (IsBlock n) (pieces_fuel f n xs)
  fuel-IsBlock zero n xs h = tt
  fuel-IsBlock (suc f) n [] h = tt
  fuel-IsBlock (suc f) n (x ∷ xs) h = (
    (omega (arith, length-take n (x ∷ xs)), omega (arith, length-take n (x ∷ xs))),
    fuel-IsBlock f n (drop n (x ∷ xs)) h,
  )

  pub pieces-IsBlock : (n : ℕ) (xs : List A) → 0 < n → All (IsBlock n) (pieces n xs)
  unfolding pieces
  pieces-IsBlock n xs h = fuel-IsBlock (length xs) n xs h
