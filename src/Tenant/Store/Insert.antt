-- ===== src/Tenant/Store/Insert.antt =====
-- internal/tenant/store.go: new rows, and the update of chosen fields.
use controlplane.Prelude.{
  ℕ, Bool, true, false, not, ◌&&◌, ◌||◌, Option, none, some, List, ◌∷◌, Text, text_eq, ◌==◌,
  if◌then◌else◌,
}
use controlplane.Table.{update, exists, find}
use controlplane.World.{
  Env, Tenant, Node, Project, provisioning, unavailable, unique_violation, foreign_key, no_update,
  Result, ok, err, sql, tenant_insert, tenant_update, Action, log,
}
use controlplane.Tenant.Store.Where.{is_live, tenant_id, at, anything}

pub record CreateTenantRequest : Type 0 where
  pub name : Text
  pub project_id : ℕ
  pub node_id : ℕ
  pub subdomain : Text

pub record UpdateTenantRequest : Type 0 where
  pub name : Option Text
  pub stripe_subscription_id : Option Text
  pub stripe_customer_id : Option Text

-- The partial unique indexes on the name and the subdomain of the tenants that are not deleted, and
-- the primary key.
unfoldable pub collides : Tenant → Tenant → Bool
collides new old =
    old.id == new.id
    || is_live old && (text_eq old.name new.name || text_eq old.subdomain new.subdomain)

-- `INSERT INTO tenants … RETURNING …` with the defaults of the columns.
abbrev pub new_row : CreateTenantRequest → Option ℕ → ℕ → Tenant
new_row req owner id = record {
  id = id;
  name = req.name;
  project_id = req.project_id;
  node_id = req.node_id;
  lxc_id = none;
  lxc_ip = none;
  subdomain = req.subdomain;
  status = provisioning;
  error_message = none;
  owner_id = owner;
  stripe_subscription_id = none;
  stripe_customer_id = none;
  tier = "free";
  dashboard_token = none;
  health_status = "unknown";
}

unfoldable pub insert_row : Env → CreateTenantRequest → Option ℕ → Action (Result Tenant)
unfolding exists collides
insert_row env req owner w =
    let w' = log (sql tenant_insert) w in
    let row = new_row req owner (env.fresh_uuid w'.trace) in
    if env.fails w'.trace
    then (err unavailable, w')
    else if exists (collides row) w.tenants
    then (err unique_violation, w')
    else if exists (λ (p : Project). p.id == req.project_id) w.projects
        && exists (λ (n : Node). n.id == req.node_id) w.nodes
    then (ok row, record w' { tenants = row ∷ w.tenants })
    else (err foreign_key, w')

unfoldable pub create : Env → CreateTenantRequest → Action (Result Tenant)
unfolding insert_row
create env req = insert_row env req none

unfoldable pub create_with_owner : Env → CreateTenantRequest → ℕ → Action (Result Tenant)
unfolding insert_row
create_with_owner env req owner = insert_row env req (some owner)

-- A field that is set replaces the column.
abbrev pub set_or_keep {ℓ} : {A : Type ℓ} → Option A → A → A
set_or_keep none old = old
set_or_keep (some new) old = new

abbrev pub some_or_keep {ℓ} : {A : Type ℓ} → Option A → Option A → Option A
some_or_keep none old = old
some_or_keep (some new) old = some new

abbrev pub apply_update : UpdateTenantRequest → Tenant → Tenant
apply_update req t = record t {
  name = set_or_keep req.name t.name;
  stripe_subscription_id = some_or_keep req.stripe_subscription_id t.stripe_subscription_id;
  stripe_customer_id = some_or_keep req.stripe_customer_id t.stripe_customer_id;
}

abbrev pub is_none {ℓ} : {A : Type ℓ} → Option A → Bool
is_none none = true
is_none (some _) = false

-- Another row that is not deleted has the name already.
abbrev pub takes_name : ℕ → Text → Tenant → Bool
takes_name id name t = not (t.id == id) && is_live t && text_eq t.name name

-- The index on the name refuses a row that is not deleted, if another such row has its new name.
abbrev pub name_taken : ℕ → Option Text → List Tenant → Bool
name_taken id none rows = false
name_taken id (some name) rows = exists (at id is_live) rows && exists (takes_name id name) rows

unfoldable pub update_fields : Env → ℕ → UpdateTenantRequest → Action (Result (Option Tenant))
unfolding update exists find
update_fields env id req w =
    let w' = log (sql tenant_update) w in
    if is_none req.name && is_none req.stripe_subscription_id && is_none req.stripe_customer_id
    then (err no_update, w)
    else if env.fails w'.trace
    then (err unavailable, w')
    else if name_taken id req.name w.tenants
    then (err unique_violation, w')
    else (let rows = update (at id anything) (apply_update req) w.tenants in
        (ok (find tenant_id id rows), record w' { tenants = rows }))
