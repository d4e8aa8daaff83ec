-- ===== src/Delta/Expand.antt =====
-- The file that the operations of a delta spell out.
use p2p_file_sync.Prelude.{
  ℕ, ◌≡◌, refl, ap, sym, ◌∙◌, Option, none, some, List, [], ◌∷◌, ◌++◌, append-nil, append_assoc,
}
use p2p_file_sync.Delta.{DeltaOp, op_copy, op_data}

abbrev pub join : Option (List ℕ) → Option (List ℕ) → Option (List ℕ)
join none _ = none
join (some a) none = none
join (some a) (some b) = some (a ++ b)

-- `expand (o ∷ ops)` has a value only where both parts have.
pub join-eq-some :
    (x y : Option (List ℕ)) (c : List ℕ)
    → join x y ≡ some c
    → (a : List ℕ) × (b : List ℕ) × (x ≡ some a) × (y ≡ some b) × (a ++ b ≡ c)
join-eq-some none y c h = cc
join-eq-some (some a) none c h = cc
join-eq-some (some a) (some b) c h = (a, b, refl, refl, cc)

module _ (old_blocks : ℕ → Option (List ℕ)) where
  abbrev pub expand_op : DeltaOp → Option (List ℕ)
  expand_op (op_copy i) = old_blocks i
  expand_op (op_data bytes) = some bytes

  -- The file that the operations spell out, if the receiver has every block that they name.
  unfoldable pub expand : List DeltaOp → Option (List ℕ)
  expand [] = some []
  expand (op ∷ ops) = join (expand_op op) (expand ops)

  pub expand-append :
      (ops : List DeltaOp) (op : DeltaOp) (a b : List ℕ)
      → expand ops ≡ some a
      → expand_op op ≡ some b
      → expand (ops ++ (op ∷ [])) ≡ some (a ++ b)
  unfolding expand
  expand-append [] op a b h k = let e : a ≡ [] = cc in rw (k, e) (ap some (append-nil b))
  expand-append (o ∷ ops) op a b h k =
      let (x, y, e, f, g) = join-eq-some (expand_op o) (expand ops) a h in
      rw (e, expand-append ops op y b f k)
        (ap some (sym (append_assoc x y b) ∙ ap (λ (t : List ℕ). t ++ b) g))
