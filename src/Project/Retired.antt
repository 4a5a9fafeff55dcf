-- ===== src/Project/Retired.antt =====
-- `Delete` of a project that only deleted tenants used.
use controlplane.Prelude.{ℕ, ◌≡◌, refl, ap, ◌∙◌, Bool, true, false, ◌∷◌, ◌==◌, ◌&&◌}
use controlplane.Table.{exists, count}
use controlplane.Tenant.Store.{is_live}
use controlplane.Tenant.Lifecycle.{Service, Actor}
use controlplane.World.{
  World, Env, Tenant, ok, err, foreign_key, sql, tenant_count, project_delete, log, query,
}
use controlplane.Project.{is_project, count_tenants, delete}
use controlplane.Project.Handler.{refuses, delete_counted, removed, delete_project}

abbrev pub is_of : ℕ → Tenant → Bool
is_of id t = t.project_id == id

-- The project is there, all its tenants are deleted ones, and there is one.
abbrev pub IsRetired : ℕ → World → Type 0
IsRetired id w =
    (exists (is_project id) w.projects ≡ true)
    × (count (λ t. is_of id t && is_live t) w.tenants ≡ 0)
    × (exists (is_of id) w.tenants ≡ true)

counted :
    (env : Env) (id : ℕ) (w : World)
    → env.fails (sql tenant_count ∷ w.trace) ≡ false
    → count (λ t. is_of id t && is_live t) w.tenants ≡ 0
    → count_tenants env id w ≡ (ok 0, log (sql tenant_count) w)
unfolding count_tenants query
counted env id w answers none_live = rw (count_tenants, query, answers, none_live) refl

kept :
    (env : Env) (id : ℕ) (w : World)
    → env.fails (sql project_delete ∷ w.trace) ≡ false
    → IsRetired id w
    → delete env id w ≡ (err foreign_key, log (sql project_delete) w)
unfolding delete
kept env id w answers (there, none_live, one) = rw (delete, answers, there, one) refl

-- The guard of the handler lets a retired project through, and the foreign key of its deleted tenants
-- keeps it: if the database answers, the request to delete it is answered 500, and no row changes.
pub delete_project-IsRetired :
    (env : Env) (svc : Service) (actor : Actor) (id : ℕ) (w : World)
    → IsRetired id w
    → env.fails (sql tenant_count ∷ w.trace) ≡ false
    → env.fails (sql project_delete ∷ sql tenant_count ∷ w.trace) ≡ false
    → delete_project env svc actor id w
      ≡ (refuses 500, log (sql project_delete) (log (sql tenant_count) w))
unfolding delete_project delete_counted
delete_project-IsRetired env svc actor id w retired counts deletes =
    ap (λ r. delete_counted env svc actor id r.0 r.1) (counted env id w counts retired.1)
    ∙ ap (λ r. removed svc actor id r.0 r.1)
        (kept env id (log (sql tenant_count) w) deletes retired)
