-- ===== src/Table/Keys.antt =====
-- Statements about one row, chosen by its primary key.
use controlplane.Prelude.{
  ℕ, ◌≡◌, refl, ◌≢◌, Bool, false, ◌&&◌, Option, none, some, List, [], ◌∷◌, arith, ◌==◌,
  if◌then◌else◌, subst,
}
use controlplane.Table.Rows.{update, exists}
use native.Mathlib.Decide.{ℕ_discrete}

module _ {ℓ} {R : Type ℓ} (key : R → ℕ) where
  -- `SELECT … WHERE id = k`.
  unfoldable pub find : ℕ → List R → Option R
  find k [] = none
  find k (r ∷ rs) = if key r == k then some r else find k rs

  -- `WHERE id = k AND q`.
  abbrev pub keyed : ℕ → (R → Bool) → R → Bool
  keyed k q r = key r == k && q r

  -- No row has the key `k`.
  abbrev pub Fresh : ℕ → List R → Type 0
  Fresh k [] = Unit
  Fresh k (r ∷ rs) = (key r ≢ k) × Fresh k rs

  -- No two rows have one key.
  abbrev pub Unique : List R → Type 0
  Unique [] = Unit
  Unique (r ∷ rs) = Fresh (key r) rs × Unique rs

  abbrev pub when_some : (R → Bool) → (R → R) → Option R → Option R
  when_some p f none = none
  when_some p f (some r) = some (if p r then f r else r)

  abbrev pub holds_at : (R → Bool) → Option R → Bool
  holds_at q none = false
  holds_at q (some r) = q r

  pub find-update :
      (k : ℕ) (p : R → Bool) (f : R → R)
      → ((r : R) → key (f r) ≡ key r)
      → (rs : List R) → find k (update p f rs) ≡ when_some p f (find k rs)
  unfolding find update
  find-update k p f same [] = refl
  find-update k p f same (r ∷ rs) = ground (arith, same r, find-update k p f same rs)

  Fresh-update :
      (k : ℕ) (p : R → Bool) (f : R → R)
      → ((r : R) → key (f r) ≡ key r)
      → (rs : List R) → Fresh k rs
      → Fresh k (update p f rs)
  unfolding update
  Fresh-update k p f same [] h = tt
  Fresh-update k p f same (r ∷ rs) h = ground (arith, same r, Fresh-update k p f same rs h.1)

  pub Unique-update :
      (p : R → Bool) (f : R → R)
      → ((r : R) → key (f r) ≡ key r)
      → (rs : List R) → Unique rs
      → Unique (update p f rs)
  unfolding update
  Unique-update p f same [] h = tt
  Unique-update p f same (r ∷ rs) h =
      ground (arith, same r, Fresh-update (key r) p f same rs h.0, Unique-update p f same rs h.1)

  pub find-Fresh : (k : ℕ) (rs : List R) → Fresh k rs → find k rs ≡ none
  unfolding find
  find-Fresh k [] h = refl
  find-Fresh k (r ∷ rs) h = ground (arith, find-Fresh k rs h.1)

  pub Fresh-find : (k : ℕ) (rs : List R) → find k rs ≡ none → Fresh k rs
  unfolding find
  Fresh-find k [] h = tt
  Fresh-find k (r ∷ rs) h = ground (arith, Fresh-find k rs)

  pub find-keyed : (k : ℕ) (rs : List R) (r : R) → find k rs ≡ some r → key r ≡ k
  unfolding find
  find-keyed k [] r h = cc
  find-keyed k (x ∷ rs) r h = ground (arith, find-keyed k rs r)

  exists-keyed-Fresh :
      (k : ℕ) (q : R → Bool) (rs : List R) → Fresh k rs → exists (keyed k q) rs ≡ false
  unfolding exists
  exists-keyed-Fresh k q [] h = refl
  exists-keyed-Fresh k q (r ∷ rs) h = ground (arith, exists-keyed-Fresh k q rs h.1)

  -- With unique keys a statement on `id = k AND q` affects a row exactly when the row `k` is there
  -- and satisfies `q`.
  pub exists-keyed :
      (k : ℕ) (q : R → Bool) (rs : List R)
      → Unique rs
      → exists (keyed k q) rs ≡ holds_at q (find k rs)
  unfolding exists find
  exists-keyed k q [] h = refl
  exists-keyed k q (r ∷ rs) h = elim (ℕ_discrete (key r) k) [
    | yes e ↦ ground (arith, exists-keyed-Fresh k q rs (subst (λ j. Fresh j rs) e h.0))
    | no d ↦ ground (arith, exists-keyed k q rs h.1)
  ]
