-- ===== src/Tenant/Owned.antt =====
-- What the users' API of internal/tenant/user_handler.go lets a user do.
use controlplane.Prelude.{ℕ, ◌≡◌, refl, ◌∙◌, ap, false, Option, none, some, ◌∷◌, holds}
use controlplane.Table.{find}
use controlplane.World.{World, Env, Tenant, Result, ok, err, sql, tenant_get, query, log}
use controlplane.Tenant.Store.{get_by_id}
use controlplane.Tenant.Lifecycle.{Service}
use controlplane.Tenant.Handler.{Reply, refuses, Switch}
use controlplane.Tenant.UserHandler.{owned_by, with_owned, user_get, user_switch, user_delete}
use controlplane.Tenant.Store.{tenant_id}

with_owned-foreign :
    {A : Type 0} (env : Env) (user id : ℕ) (f : Tenant → World → Reply A × World) (t : Tenant)
    (w : World)
    → find tenant_id id w.tenants ≡ some t
    → holds t.owner_id user ≡ false
    → env.fails (sql tenant_get ∷ w.trace) ≡ false
    → with_owned env user id f w ≡ (refuses 404 "tenant not found", log (sql tenant_get) w)
unfolding with_owned
with_owned-foreign {A} env user id f t w row foreign answers =
    ap (λ r. answer r.0 r.1) read ∙ ap (λ o. next_to o (log (sql tenant_get) w)) other
  where
    next_to : Option Tenant → World → Reply A × World
    next_to o v = elim o [ none ↦ (refuses 404 "tenant not found", v) | some t ↦ f t v ]

    answer : Result (Option Tenant) → World → Reply A × World
    answer r v = elim r [
      | err e ↦ (refuses 500 "failed to get tenant", v)
      | ok o ↦ next_to (owned_by user o) v
    ]

    read : get_by_id env id w ≡ (ok (some t), log (sql tenant_get) w)
    read = unfold get_by_id in unfold query in rw (answers, row) refl

    other : owned_by user (some t) ≡ none
    other = rw foreign refl

-- A user who asks to see, suspend, resume or delete a tenant of someone else is told that there is none,
-- and nothing happens but the statement that reads the tenant, if the database answers it.
pub user_delete-foreign :
    (env : Env) (svc : Service) (k : Switch) (user id : ℕ) (t : Tenant) (w : World)
    → find tenant_id id w.tenants ≡ some t
    → holds t.owner_id user ≡ false
    → env.fails (sql tenant_get ∷ w.trace) ≡ false
    → (user_get env user id w ≡ (refuses 404 "tenant not found", log (sql tenant_get) w))
      × (user_switch env svc k user id w ≡ (refuses 404 "tenant not found", log (sql tenant_get) w))
      × (user_delete env svc user id w ≡ (refuses 404 "tenant not found", log (sql tenant_get) w))
unfolding user_get user_switch user_delete
user_delete-foreign env svc k user id t w row foreign answers = (
  with_owned-foreign env user id _ t w row foreign answers,
  with_owned-foreign env user id _ t w row foreign answers,
  with_owned-foreign env user id _ t w row foreign answers,
)
