-- ===== src/Tenant/Store/Select.antt =====
-- internal/tenant/store.go: the statements that read the table of tenants.
use controlplane.Prelude.{
  ℕ, Bool, true, false, ◌&&◌, Option, none, some, List, [], ◌∷◌, Text, text_eq, holds, ◌==◌, length,
  take, drop,
}
use controlplane.Table.{pick_row, count, select, find}
use controlplane.World.{
  Env, Tenant, Status, is_status, Result, tenant_list, tenant_get, tenant_count, Action, query,
}
use controlplane.Tenant.Store.Where.{is_live, tenant_id}

pub list : Env → Action (Result (List Tenant))
list env = query env tenant_list (λ w. w.tenants)

-- The filters of `ListPaginated`; an empty text is no filter.
pub record Filter : Type 0 where
  pub status : Option Status
  pub node_id : Option ℕ
  pub project_id : Option ℕ

abbrev pub filtered {ℓ} : {A : Type ℓ} → Option A → (A → Bool) → Bool
filtered none test = true
filtered (some a) test = test a

unfoldable pub matches : Filter → Tenant → Bool
matches f t =
    filtered f.status (λ s. is_status t.status s)
    && filtered f.node_id (λ n. t.node_id == n)
    && filtered f.project_id (λ p. t.project_id == p)

-- `COUNT(*) OVER()` comes with each row, so a page with no rows leaves `total` at 0.
abbrev pub paged {ℓ} : {A : Type ℓ} → List A → ℕ → ℕ → List A × ℕ
paged rows limit offset =
    let page = take limit (drop offset rows) in (page, elim page [ [] ↦ 0 | _ ∷ _ ↦ length rows ])

unfoldable pub list_paginated : Env → ℕ → ℕ → Filter → Action (Result (List Tenant × ℕ))
unfolding query select
list_paginated env limit offset f =
    query env tenant_list (λ w. paged (select (matches f) w.tenants) limit offset)

unfoldable pub get_by_id : Env → ℕ → Action (Result (Option Tenant))
unfolding query find
get_by_id env id = query env tenant_get (λ w. find tenant_id id w.tenants)

pub count_all : Env → Action (Result ℕ)
count_all env = query env tenant_count (λ w. length w.tenants)

abbrev pub owned_live : ℕ → Tenant → Bool
owned_live owner t = holds t.owner_id owner && is_live t

unfoldable pub count_by_owner_id : Env → ℕ → Action (Result ℕ)
unfolding query count
count_by_owner_id env owner = query env tenant_count (λ w. count (owned_live owner) w.tenants)

unfoldable pub list_by_owner_id : Env → ℕ → Action (Result (List Tenant))
unfolding query select
list_by_owner_id env owner = query env tenant_list (λ w. select (owned_live owner) w.tenants)

abbrev pub is_text : Option Text → Text → Bool
is_text none s = false
is_text (some t) s = text_eq t s

unfoldable pub get_by_stripe_customer_id : Env → Text → Action (Result (Option Tenant))
unfolding query select pick_row
get_by_stripe_customer_id env customer = query env tenant_get (λ w.
    pick_row (env.row_of w.trace)
      (select (λ t. is_text t.stripe_customer_id customer && is_live t) w.tenants))

unfoldable pub get_billing_by_owner_id : Env → ℕ → Action (Result (List Tenant))
unfolding query select
get_billing_by_owner_id env owner = query env tenant_list (λ w. select (owned_live owner) w.tenants)
