-- ===== src/Table/Pick.antt =====
-- `SELECT … WHERE p LIMIT 1` without an order: any row that matches can come back.
use controlplane.Prelude.{
  ℕ, zero, suc, ◌≡◌, refl, ap, ◌∙◌, Bool, true, false, Option, none, some, List, [], ◌∷◌, All, ◌⊎◌,
  inl, inr, head?, Bool-cases,
}
use controlplane.Table.Rows.{select}

module _ {ℓ} {R : Type ℓ} where
  -- The row with the number `n`, or the last one; none only if there is none.
  unfoldable pub pick_row : ℕ → List R → Option R
  pick_row n [] = none
  pick_row n (r ∷ []) = some r
  pick_row zero (r ∷ q ∷ rs) = some r
  pick_row (suc n) (r ∷ q ∷ rs) = pick_row n (q ∷ rs)

module _ {R : Type 0} where
  abbrev pub Among : R → List R → Type 0
  Among r [] = ⊥
  Among r (q ∷ rs) = (r ≡ q) ⊎ Among r rs

  -- A row that matches, or none if no row does.
  abbrev pub PickOf : (R → Bool) → List R → Option R → Type 0
  PickOf p rs none = All (λ r. p r ≡ false) rs
  PickOf p rs (some r) = Among r rs × (p r ≡ true)

  cons-PickOf :
      (p : R → Bool) (q : R) (rs : List R) (o : Option R)
      → p q ≡ false
      → PickOf p rs o
      → PickOf p (q ∷ rs) o
  cons-PickOf p q rs none e h = (e, h)
  cons-PickOf p q rs (some r) e (there, holds) = (inr there, holds)

  not-cons : (r : R) (rs : List R) → r ∷ rs ≡ [] → ⊥
  not-cons r rs e = cc

  abbrev MemberOf : List R → Option R → Type 0
  MemberOf ms none = ms ≡ []
  MemberOf ms (some r) = Among r ms

  later_member :
      (q r : R) (rs : List R) (o : Option R) → MemberOf (r ∷ rs) o → MemberOf (q ∷ r ∷ rs) o
  later_member q r rs none e = absurd (not-cons r rs e)
  later_member q r rs (some x) there = inr there

  pub pick_row-MemberOf : (n : ℕ) (ms : List R) → MemberOf ms (pick_row n ms)
  unfolding pick_row
  pick_row-MemberOf n [] = refl
  pick_row-MemberOf n (r ∷ []) = inl refl
  pick_row-MemberOf zero (r ∷ q ∷ rs) = inl refl
  pick_row-MemberOf (suc n) (r ∷ q ∷ rs) =
      later_member r q rs (pick_row n (q ∷ rs)) (pick_row-MemberOf n (q ∷ rs))

  head-MemberOf : (ms : List R) → MemberOf ms (head? ms)
  head-MemberOf [] = refl
  head-MemberOf (r ∷ rs) = inl refl

  select-PickOf :
      (p : R → Bool) (rs : List R) (o : Option R) → MemberOf (select p rs) o → PickOf p rs o
  unfolding select
  select-PickOf p [] none h = tt
  select-PickOf p [] (some r) h = absurd h
  select-PickOf p (q ∷ rs) none h = elim (Bool-cases (p q)) [
    | inl hit ↦ absurd (not-cons q (select p rs) (rw hit at h))
    | inr miss ↦ (miss, select-PickOf p rs none (rw miss at h))
  ]
  select-PickOf p (q ∷ rs) (some r) h = elim (Bool-cases (p q)) [
    | inl hit ↦ first hit (select-PickOf p rs (some r)) (rw hit at h)
    | inr miss ↦ cons-PickOf p q rs (some r) miss (select-PickOf p rs (some r) (rw miss at h))
  ]
    where
      first :
          p q ≡ true
          → (Among r (select p rs) → PickOf p rs (some r))
          → Among r (q ∷ select p rs)
          → PickOf p (q ∷ rs) (some r)
      first hit later (inl same) = (inl same, ap p same ∙ hit)
      first hit later (inr there) = let (found, holds) = later there in (inr found, holds)

  pub pick_row-PickOf :
      (p : R → Bool) (n : ℕ) (rs : List R) → PickOf p rs (pick_row n (select p rs))
  pick_row-PickOf p n rs =
      select-PickOf p rs (pick_row n (select p rs)) (pick_row-MemberOf n (select p rs))

  pub head-PickOf : (p : R → Bool) (rs : List R) → PickOf p rs (head? (select p rs))
  head-PickOf p rs = select-PickOf p rs (head? (select p rs)) (head-MemberOf (select p rs))
