-- ===== src/Tenant/UserHandler.antt =====
-- internal/tenant/user_handler.go: the handlers of the users' API, for an authenticated user. The
-- format of the ids is checked before.
use controlplane.Prelude.{
  ℕ, Option, none, some, List, [], ◌∷◌, Text, holds, ltb, if◌then◌else◌, ◌||◌,
}
use controlplane.World.{World, Env, Tenant, Node, Project, ok, err}
use controlplane.Tenant.Store.{get_by_id, count_by_owner_id, list_by_owner_id}
use controlplane.Tenant.Subdomain.{validate_subdomain}
use controlplane.Tenant.Lifecycle.{
  Service, CreateParams, done, failed, create_tenant, delete_tenant,
}
use controlplane.Tenant.Handler.{Reply, sends, refuses, Switch, switch_found, respond_lifecycle}
use controlplane.Node.Store.{get_least_loaded}
use controlplane.Project.{get_default}
use controlplane.Billing.{get_limits}
use controlplane.Provisioner.{is_empty}

-- The tenant is there and the user owns it.
abbrev pub owned_by : ℕ → Option Tenant → Option Tenant
owned_by user none = none
owned_by user (some t) = if holds t.owner_id user then some t else none

-- A handler on a tenant of the user.
unfoldable pub with_owned :
    {A : Type 0} → Env → ℕ → ℕ → (Tenant → World → Reply A × World) → World → Reply A × World
with_owned env user id f w =
    let (found, w1) = get_by_id env id w in
    elim found [
      | err e ↦ (refuses 500 "failed to get tenant", w1)
      | ok o ↦ elim (owned_by user o) [
        | none ↦ (refuses 404 "tenant not found", w1)
        | some t ↦ f t w1
      ]
    ]

-- `UserHandler.Get`.
unfoldable pub user_get : Env → ℕ → ℕ → World → Reply Tenant × World
user_get env user id = with_owned env user id λ t w. (sends 200 t, w)

-- `UserHandler.Suspend` and `UserHandler.Resume`.
unfoldable pub user_switch : Env → Service → Switch → ℕ → ℕ → World → Reply (Option Tenant) × World
user_switch env svc k user id = with_owned env user id (switch_found env svc k (some user) id)

-- `UserHandler.Delete`.
unfoldable pub user_delete : Env → Service → ℕ → ℕ → World → Reply (Option Tenant) × World
user_delete env svc user id = with_owned env user id λ t w.
    let (outcome, w1) = delete_tenant env svc t (some user) w in
    (elim outcome [ failed e ↦ respond_lifecycle e | done u ↦ sends 200 u ], w1)

-- The largest allowance of the tiers of the user's tenants, and of the free one.
unfoldable pub allowance : List Tenant → ℕ → ℕ
allowance [] n = n
allowance (t ∷ ts) n =
    let here = (get_limits t.tier).max_tenants in allowance ts (if ltb n here then here else n)

unfoldable pub create_owned :
    Env → Service → ℕ → Text → Text → Project → Node → World → Reply Tenant × World
create_owned env svc user name subdomain p n w =
    let params : CreateParams = record {
      name = name;
      subdomain = subdomain;
      project = p;
      node = n;
      owner_id = some user;
    } in
    let (outcome, w1) = create_tenant env svc params (some user) w in
    (elim outcome [ failed e ↦ respond_lifecycle e | done t ↦ sends 202 t ], w1)

unfoldable pub choose_node :
    Env → Service → ℕ → Text → Text → Project → World → Reply Tenant × World
choose_node env svc user name subdomain p w =
    let (found, w1) = get_least_loaded env p.ram_mb w in
    elim found [
      | err e ↦ (refuses 500 "failed to select node", w1)
      | ok none ↦ (refuses 503 "no nodes with sufficient capacity", w1)
      | ok (some n) ↦ create_owned env svc user name subdomain p n w1
    ]

unfoldable pub choose_project : Env → Service → ℕ → Text → Text → World → Reply Tenant × World
choose_project env svc user name subdomain w =
    let (found, w1) = get_default env w in
    elim found [
      | err e ↦ (refuses 500 "failed to select project", w1)
      | ok none ↦ (refuses 503 "no projects configured", w1)
      | ok (some p) ↦ choose_node env svc user name subdomain p w1
    ]

-- The number at the end of the message is left out.
unfoldable pub within_allowance :
    Env → Service → ℕ → Text → Text → ℕ → List Tenant → World → Reply Tenant × World
within_allowance env svc user name subdomain used rows w =
    if ltb used (allowance rows (get_limits "free").max_tenants)
    then choose_project env svc user name subdomain w
    else (refuses 403 "tenant limit reached", w)

unfoldable pub check_quota : Env → Service → ℕ → Text → Text → World → Reply Tenant × World
check_quota env svc user name subdomain w =
    let (counted, w1) = count_by_owner_id env user w in
    elim counted [
      | err e ↦ (refuses 500 "failed to check tenant limits", w1)
      | ok used ↦
          let (listed, w2) = list_by_owner_id env user w1 in
          elim listed [
            | err e ↦ (refuses 500 "failed to check tenant limits", w2)
            | ok rows ↦ within_allowance env svc user name subdomain used rows w2
          ]
    ]

-- `UserHandler.Create`.
unfoldable pub user_create : Env → Service → ℕ → Text → Text → World → Reply Tenant × World
user_create env svc user name subdomain w =
    if is_empty name || is_empty subdomain
    then (refuses 400 "name and subdomain are required", w)
    else elim (validate_subdomain subdomain) [
      | some e ↦ (respond_lifecycle e, w)
      | none ↦ check_quota env svc user name subdomain w
    ]
