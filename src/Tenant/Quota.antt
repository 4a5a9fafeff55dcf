-- ===== src/Tenant/Quota.antt =====
-- The quota of internal/tenant/user_handler.go.
use controlplane.Prelude.{
  ℕ, ◌≤◌, ◌<◌, ◌≡◌, refl, ◌∙◌, ap, subst, sym, Option, none, some, List, ◌∷◌, Text, ltb, arith,
  Bool-cases, inl, inr, ◌||◌,
}
use controlplane.Table.{count, select}
use controlplane.World.{
  World, Env, Tenant, Node, Project, Result, ok, err, sql, Statement, tenant_count, tenant_list,
  query, log,
}
use controlplane.Tenant.Store.{count_by_owner_id, list_by_owner_id, owned_live}
use controlplane.Tenant.Lifecycle.{Service, CreateParams, Outcome, done, failed, create_tenant}
use controlplane.Tenant.Subdomain.{LifecycleError, validate_subdomain}
use controlplane.Tenant.Handler.{Reply, sends, refuses, respond_lifecycle}
use controlplane.Tenant.NewRow.{RowsOf, create_tenant-RowsOf}
use controlplane.Tenant.UserHandler.{
  allowance, create_owned, choose_node, choose_project, within_allowance, check_quota, user_create,
}
use controlplane.Node.Store.{get_least_loaded}
use controlplane.Project.{get_default}
use controlplane.Billing.{get_limits}
use controlplane.Provisioner.{is_empty}

-- The allowance of a user by the tenants in the table.
abbrev pub allowance_in : ℕ → World → ℕ
allowance_in user w = allowance (select (owned_live user) w.tenants) (get_limits "free").max_tenants

-- After a creation the user owns the new tenant, and no more tenants than the allowance that the tenants
-- before gave; a refusal adds no tenant.
abbrev pub QuotaOf : ℕ → World → Reply Tenant × World → Type 0
QuotaOf user w (sends c t, v) =
    (t.owner_id ≡ some user)
    × (v.tenants ≡ t ∷ w.tenants)
    × (count (owned_live user) v.tenants ≤ allowance_in user w)
QuotaOf user w (refuses c m, v) = v.tenants ≡ w.tenants

pub count-new :
    (user : ℕ) (t : Tenant) (rows : List Tenant) (n : ℕ)
    → count (owned_live user) rows < n
    → count (owned_live user) (t ∷ rows) ≤ n
unfolding count
count-new user t rows n below = ground arith

pub create_owned-QuotaOf :
    (env : Env) (svc : Service) (user : ℕ) (name subdomain : Text) (p : Project) (n : Node)
    (w v : World)
    → v.tenants ≡ w.tenants
    → count (owned_live user) w.tenants < allowance_in user w
    → QuotaOf user w (create_owned env svc user name subdomain p n v)
unfolding create_owned
create_owned-QuotaOf env svc user name subdomain p n w v same below =
    go (create_tenant env svc params (some user) v)
      (create_tenant-RowsOf env svc params (some user) v)
  where
    params : CreateParams
    params = record {
      name = name;
      subdomain = subdomain;
      project = p;
      node = n;
      owner_id = some user;
    }

    go :
        (r : Outcome Tenant × World)
        → RowsOf params v r
        → QuotaOf user w (
          elim r.0 as (λ _. Reply Tenant) [ failed e ↦ respond_lifecycle e | done t ↦ sends 202 t ],
          r.1,
        )
    go (done t, u) (rows, status, owner) =
        let added = rows ∙ ap (λ ts. t ∷ ts) same in
        (owner, added, rw added (count-new user t w.tenants (allowance_in user w) below))
    go (failed e, u) rows = rows ∙ same

-- The steps before the creation read the tables only.
pub choose_node-QuotaOf :
    (env : Env) (svc : Service) (user : ℕ) (name subdomain : Text) (p : Project) (w v : World)
    → v.tenants ≡ w.tenants
    → count (owned_live user) w.tenants < allowance_in user w
    → QuotaOf user w (choose_node env svc user name subdomain p v)
unfolding choose_node
choose_node-QuotaOf env svc user name subdomain p w v same below =
    go (get_least_loaded env p.ram_mb v) (unfold get_least_loaded in unfold query in same)
  where
    go :
        (r : Result (Option Node) × World)
        → r.1.tenants ≡ w.tenants
        → QuotaOf user w (elim r.0 as (λ _. Reply Tenant × World) [
          | err e ↦ (refuses 500 "failed to select node", r.1)
          | ok none ↦ (refuses 503 "no nodes with sufficient capacity", r.1)
          | ok (some n) ↦ create_owned env svc user name subdomain p n r.1
        ])
    go (err e, u) h = h
    go (ok none, u) h = h
    go (ok (some n), u) h = create_owned-QuotaOf env svc user name subdomain p n w u h below

pub choose_project-QuotaOf :
    (env : Env) (svc : Service) (user : ℕ) (name subdomain : Text) (w v : World)
    → v.tenants ≡ w.tenants
    → count (owned_live user) w.tenants < allowance_in user w
    → QuotaOf user w (choose_project env svc user name subdomain v)
unfolding choose_project
choose_project-QuotaOf env svc user name subdomain w v same below =
    go (get_default env v) (unfold get_default in unfold query in same)
  where
    go :
        (r : Result (Option Project) × World)
        → r.1.tenants ≡ w.tenants
        → QuotaOf user w (elim r.0 as (λ _. Reply Tenant × World) [
          | err e ↦ (refuses 500 "failed to select project", r.1)
          | ok none ↦ (refuses 503 "no projects configured", r.1)
          | ok (some p) ↦ choose_node env svc user name subdomain p r.1
        ])
    go (err e, u) h = h
    go (ok none, u) h = h
    go (ok (some p), u) h = choose_node-QuotaOf env svc user name subdomain p w u h below

pub within_allowance-QuotaOf :
    (env : Env) (svc : Service) (user : ℕ) (name subdomain : Text) (w v : World)
    → v.tenants ≡ w.tenants
    → QuotaOf user w (
        within_allowance env svc user name subdomain
          (count (owned_live user) w.tenants)
          (select (owned_live user) w.tenants)
          v)
unfolding within_allowance
within_allowance-QuotaOf env svc user name subdomain w v same =
    elim (Bool-cases (ltb (count (owned_live user) w.tenants) (allowance_in user w))) [
      | inl below ↦
          rw (QuotaOf, below)
            (choose_project-QuotaOf env svc user name subdomain w v same (ground arith))
      | inr above ↦ rw (QuotaOf, above) same
    ]

-- A statement that reads: its answer, if it has one.
abbrev pub Reads : {A : Type 0} → A → World → Result A × World → Type 0
Reads a w (ok b, v) = (b ≡ a) × (v.tenants ≡ w.tenants)
Reads a w (err e, v) = v.tenants ≡ w.tenants

pub query-Reads :
    {A : Type 0} (env : Env) (c : Statement) (f : World → A) (w : World)
    → Reads (f (log (sql c) w)) w (query env c f w)
unfolding query
query-Reads env c f w = elim (Bool-cases (env.fails (sql c ∷ w.trace))) [
  | inl down ↦ rw (Reads, down) refl
  | inr up ↦ rw (Reads, up) (refl, refl)
]

pub listed-QuotaOf :
    (env : Env) (svc : Service) (user : ℕ) (name subdomain : Text) (w v : World)
    → v.tenants ≡ w.tenants
    → (r : Result (List Tenant) × World) → Reads (select (owned_live user) v.tenants) v r
    → QuotaOf user w (elim r.0 as (λ _. Reply Tenant × World) [
      | err e ↦ (refuses 500 "failed to check tenant limits", r.1)
      | ok rows ↦
          within_allowance env svc user name subdomain (count (owned_live user) w.tenants) rows r.1
    ])
listed-QuotaOf env svc user name subdomain w v same (err x, u) kept = kept ∙ same
listed-QuotaOf env svc user name subdomain w v same (ok rows, u) (e, kept) =
    subst
      (λ rs.
        QuotaOf user w
          (within_allowance env svc user name subdomain (count (owned_live user) w.tenants) rs u))
      (sym (e ∙ ap (select (owned_live user)) same))
      (within_allowance-QuotaOf env svc user name subdomain w u (kept ∙ same))

pub check_quota-QuotaOf :
    (env : Env) (svc : Service) (user : ℕ) (name subdomain : Text) (w : World)
    → QuotaOf user w (check_quota env svc user name subdomain w)
unfolding check_quota
check_quota-QuotaOf env svc user name subdomain w = counted (count_by_owner_id env user w) (
    unfold count_by_owner_id in
    query-Reads env tenant_count (λ (v : World). count (owned_live user) v.tenants) w)
  where
    goes_on : ℕ → World → Reply Tenant × World
    goes_on used v =
        let (listed, w2) = list_by_owner_id env user v in
        elim listed as (λ _. Reply Tenant × World) [
          | err e ↦ (refuses 500 "failed to check tenant limits", w2)
          | ok rows ↦ within_allowance env svc user name subdomain used rows w2
        ]

    reads : (v : World) → Reads (select (owned_live user) v.tenants) v (list_by_owner_id env user v)
    reads v =
        unfold list_by_owner_id in
        query-Reads env tenant_list (λ (u : World). select (owned_live user) u.tenants) v

    counted :
        (r : Result ℕ × World)
        → Reads (count (owned_live user) w.tenants) w r
        → QuotaOf user w (elim r.0 as (λ _. Reply Tenant × World) [
          | err e ↦ (refuses 500 "failed to check tenant limits", r.1)
          | ok used ↦ goes_on used r.1
        ])
    counted (ok used, v) (e, same) =
        subst (λ n. QuotaOf user w (goes_on n v)) (sym e)
          (listed-QuotaOf env svc user name subdomain w v same (list_by_owner_id env user v)
            (reads v))
    counted (err x, v) same = same

-- A user whose request for a tenant is granted owns it and, with it, no more tenants than the allowance of
-- the tiers of the tenants before; a request that is refused, for whatever reason, adds no tenant.
pub user_create-QuotaOf :
    (env : Env) (svc : Service) (user : ℕ) (name subdomain : Text) (w : World)
    → QuotaOf user w (user_create env svc user name subdomain w)
unfolding user_create
user_create-QuotaOf env svc user name subdomain w =
    elim (Bool-cases (is_empty name || is_empty subdomain)) [
      | inl missing ↦ rw (QuotaOf, missing) refl
      | inr given ↦ rw (QuotaOf, given) (go (validate_subdomain subdomain))
    ]
  where
    go :
        (o : Option LifecycleError)
        → QuotaOf user w (elim o as (λ _. Reply Tenant × World) [
          | some e ↦ (respond_lifecycle e, w)
          | none ↦ check_quota env svc user name subdomain w
        ])
    go (some e) = refl
    go none = check_quota-QuotaOf env svc user name subdomain w
