-- ===== src/Table/Rows.antt =====
-- Statements over all rows of a table.
use controlplane.Prelude.{
  ℕ, suc, ◌+◌, ◌≤◌, ◌≡◌, refl, ap, Bool, true, false, ◌||◌, List, [], ◌∷◌, arith, ltb,
  if◌then◌else◌, length, All,
}

module _ {ℓ} {R : Type ℓ} where
  -- `SELECT COUNT(*) … WHERE p`, and the affected rows of an `UPDATE … WHERE p`.
  unfoldable pub count : (R → Bool) → List R → ℕ
  count p [] = 0
  count p (r ∷ rs) = (if p r then 1 else 0) + count p rs

  -- `UPDATE … SET f WHERE p`.
  unfoldable pub update : (R → Bool) → (R → R) → List R → List R
  update p f [] = []
  update p f (r ∷ rs) = (if p r then f r else r) ∷ update p f rs

  -- `SELECT … WHERE p`, in the order of the table.
  unfoldable pub select : (R → Bool) → List R → List R
  select p [] = []
  select p (r ∷ rs) = let rest = select p rs in if p r then r ∷ rest else rest

  -- Whether any row satisfies `p`: a unique index, or a foreign key, is checked so.
  unfoldable pub exists : (R → Bool) → List R → Bool
  exists p [] = false
  exists p (r ∷ rs) = p r || exists p rs

  pub exists-count : (p : R → Bool) (rs : List R) → exists p rs ≡ ltb 0 (count p rs)
  unfolding exists count
  exists-count p [] = refl
  exists-count p (r ∷ rs) = ground (arith, exists-count p rs)

  pub count-le-length : (p : R → Bool) (rs : List R) → count p rs ≤ length rs
  unfolding count
  count-le-length p [] = omega arith
  count-le-length p (r ∷ rs) = ground (arith, count-le-length p rs)

  pub length-select : (p : R → Bool) (rs : List R) → length (select p rs) ≡ count p rs
  unfolding count select
  length-select p [] = refl
  length-select p (r ∷ rs) = ground (arith, length-select p rs)

  pub select-All : (p : R → Bool) (rs : List R) → All (λ r. p r ≡ true) (select p rs)
  unfolding select
  select-All p [] = tt
  select-All p (r ∷ rs) = ground (arith, select-All p rs)

  pub length-update : (p : R → Bool) (f : R → R) (rs : List R) → length (update p f rs) ≡ length rs
  unfolding update
  length-update p f [] = refl
  length-update p f (r ∷ rs) = ap suc (length-update p f rs)
