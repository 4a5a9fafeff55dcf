-- ===== src/Tenant/Pages.antt =====
-- What the lists of internal/tenant/store.go and internal/tenant/tenant_pollable.go return.
use controlplane.Prelude.{
  ℕ, zero, suc, ◌-◌, min, ◌≡◌, ap, true, false, List, [], ◌∷◌, ltb, ◌&&◌, if◌then◌else◌, arith,
  length, take, drop, All, length-take, length-drop, ◌∙◌,
}
use controlplane.Table.{select, select-All, length-select, count}
use controlplane.World.{World, Env, Tenant, Result, ok, err, sql, tenant_list}
use controlplane.Tenant.Store.{Filter, matches, paged, list_paginated}

-- The total that a page shows, of `n` rows that match.
abbrev pub shown_total : ℕ → ℕ → ℕ → ℕ
shown_total limit offset n = if ltb 0 limit && ltb offset n then n else 0

module _ {ℓ} {A : Type ℓ} where
  All-take : (P : A → Type 0) (n : ℕ) (xs : List A) → All P xs → All P (take n xs)
  All-take P zero xs h = tt
  All-take P (suc n) [] h = tt
  All-take P (suc n) (x ∷ xs) h = (h.0, All-take P n xs h.1)

  All-drop : (P : A → Type 0) (n : ℕ) (xs : List A) → All P xs → All P (drop n xs)
  All-drop P zero xs h = h
  All-drop P (suc n) [] h = tt
  All-drop P (suc n) (x ∷ xs) h = All-drop P n xs h.1

  paged-length :
      (rows : List A) (limit offset : ℕ)
      → length (paged rows limit offset).0 ≡ min limit (length rows - offset)
  paged-length rows limit offset =
      length-take limit (drop offset rows) ∙ ap (min limit) (length-drop offset rows)

  paged-total :
      (rows : List A) (limit offset : ℕ)
      → (paged rows limit offset).1 ≡ shown_total limit offset (length rows)
  paged-total rows limit offset = go (paged rows limit offset).0 (paged-length rows limit offset)
    where
      go :
          (page : List A)
          → length page ≡ min limit (length rows - offset)
          → elim page as (λ _. ℕ) [ [] ↦ 0 | _ ∷ _ ↦ length rows ]
            ≡ shown_total limit offset (length rows)
      go [] h = ground arith
      go (x ∷ xs) h = ground arith

-- What a page of a filtered list is.
pub record IsPage (f : Filter) (limit offset : ℕ) (all : List Tenant) (page : List Tenant)
    (total : ℕ) : Type 0 where
  pub fits : length page ≡ min limit (count (matches f) all - offset)
  pub matching : All (λ t. matches f t ≡ true) page
  pub counted : total ≡ shown_total limit offset (count (matches f) all)

abbrev pub PageOf : Filter → ℕ → ℕ → List Tenant → Result (List Tenant × ℕ) → Type 0
PageOf f limit offset all (ok (page, total)) = IsPage f limit offset all page total
PageOf f limit offset all (err e) = ⊥

-- If the database answers, a page has as many tenants as the limit and the rest of the matching
-- tenants allow, each matches the filter, and the total is the number of the matching tenants; but
-- the total is 0 if the limit is 0 or the offset is at or past their end.
pub list_paginated-PageOf :
    (env : Env) (limit offset : ℕ) (f : Filter) (w : World)
    → env.fails (sql tenant_list ∷ w.trace) ≡ false
    → PageOf f limit offset w.tenants (list_paginated env limit offset f w).0
unfolding list_paginated
list_paginated-PageOf env limit offset f w answers =
    let rows = select (matches f) w.tenants in
    let n = length-select (matches f) w.tenants in
    rw answers (record {
      fits = paged-length rows limit offset ∙ ap (λ k. min limit (k - offset)) n;
      matching =
          All-take (λ t. matches f t ≡ true) limit (drop offset rows)
            (All-drop (λ t. matches f t ≡ true) offset rows (select-All (matches f) w.tenants));
      counted = paged-total rows limit offset ∙ ap (shown_total limit offset) n;
    })
