-- ===== src/Project.antt =====
-- internal/project/store.go: the projects that tenants are made from.
pub mod Handler
pub mod Retired
use controlplane.Prelude.{
  none, some, List, [], ◌∷◌, ℕ, Bool, false, not, ◌&&◌, ◌||◌, Option, ◌==◌, if◌then◌else◌, Text,
  text_eq, codes, or_default,
}
use controlplane.Table.{find, count, update, select, exists}
use controlplane.Tenant.Store.{is_live, paged, set_or_keep, some_or_keep, is_none}
use controlplane.World.{
  Env, Project, Tenant, Result, ok, err, unavailable, no_rows, no_update, unique_violation,
  foreign_key, sql, tenant_count, project_get, project_list, project_insert, project_update,
  project_delete, Action, log, query,
}

-- Of the figures of a request only those that are not negative are modelled; `template_id` must be
-- positive, `ram_mb` is not checked.
pub record CreateProjectRequest : Type 0 where
  pub name : Text
  pub template_id : ℕ
  pub ports : List ℕ
  pub stripe_price_id : Option Text
  pub health_path : Text
  pub ram_mb : ℕ
  pub network_cidr : Text
  pub gateway : Text

pub record UpdateProjectRequest : Type 0 where
  pub name : Option Text
  pub template_id : Option ℕ
  pub ports : Option (List ℕ)
  pub stripe_price_id : Option Text
  pub health_path : Option Text
  pub ram_mb : Option ℕ
  pub network_cidr : Option Text
  pub gateway : Option Text

abbrev pub project_key : Project → ℕ
project_key p = p.id

abbrev pub is_project : ℕ → Project → Bool
is_project id p = p.id == id

unfoldable pub list : Env → Action (Result (List Project))
unfolding query
list env = query env project_list (λ w. w.projects)

unfoldable pub list_paginated : Env → ℕ → ℕ → Action (Result (List Project × ℕ))
unfolding query
list_paginated env limit offset = query env project_list (λ w. paged w.projects limit offset)

unfoldable pub get_by_id : Env → ℕ → Action (Result (Option Project))
unfolding query find
get_by_id env id = query env project_get (λ w. find project_key id w.projects)

-- The last of a list, or what stands before it.
abbrev pub last_or {ℓ} : {A : Type ℓ} → Option A → List A → Option A
last_or o [] = o
last_or o (x ∷ xs) = last_or (some x) xs

-- `GetDefault`: `ORDER BY created_at ASC LIMIT 1`, the oldest project.
unfoldable pub get_default : Env → Action (Result (Option Project))
unfolding query
get_default env = query env project_get (λ w. last_or none w.projects)

abbrev pub new_row : CreateProjectRequest → ℕ → Project
new_row req id = record {
  id = id;
  name = req.name;
  template_id = req.template_id;
  ports = req.ports;
  stripe_price_id = req.stripe_price_id;
  health_path = or_default req.health_path (codes "/api/health");
  ram_mb = if req.ram_mb == 0 then 1536 else req.ram_mb;
  network_cidr = or_default req.network_cidr (codes "10.10.10.0/24");
  gateway = or_default req.gateway (codes "10.10.10.1");
}

-- The primary key and the unique name.
abbrev pub collides : Project → Project → Bool
collides new old = old.id == new.id || text_eq old.name new.name

unfoldable pub create : Env → CreateProjectRequest → Action (Result Project)
unfolding exists
create env req w =
    let w' = log (sql project_insert) w in
    let row = new_row req (env.fresh_uuid w'.trace) in
    if env.fails w'.trace
    then (err unavailable, w')
    else if exists (collides row) w.projects
    then (err unique_violation, w')
    else (ok row, record w' { projects = row ∷ w.projects })

abbrev pub apply_update : UpdateProjectRequest → Project → Project
apply_update req p = record p {
  name = set_or_keep req.name p.name;
  template_id = set_or_keep req.template_id p.template_id;
  ports = set_or_keep req.ports p.ports;
  stripe_price_id = some_or_keep req.stripe_price_id p.stripe_price_id;
  health_path = set_or_keep req.health_path p.health_path;
  ram_mb = set_or_keep req.ram_mb p.ram_mb;
  network_cidr = set_or_keep req.network_cidr p.network_cidr;
  gateway = set_or_keep req.gateway p.gateway;
}

abbrev pub is_empty_update : UpdateProjectRequest → Bool
is_empty_update req =
    is_none req.name
    && is_none req.template_id
    && is_none req.ports
    && is_none req.stripe_price_id
    && is_none req.health_path
    && is_none req.ram_mb
    && is_none req.network_cidr
    && is_none req.gateway

abbrev pub is_named : Option Text → Project → Bool
is_named none p = false
is_named (some name) p = text_eq p.name name

-- Another project has the name that is asked for, and the project is there.
unfoldable pub takes_name : ℕ → Option Text → List Project → Bool
unfolding exists
takes_name id name ps =
    exists (is_project id) ps && exists (λ p. not (is_project id p) && is_named name p) ps

-- `none` for an id that is not there.
unfoldable pub update_fields : Env → ℕ → UpdateProjectRequest → Action (Result (Option Project))
unfolding update takes_name find
update_fields env id req w =
    let w' = log (sql project_update) w in
    let rows = update (is_project id) (apply_update req) w.projects in
    if is_empty_update req
    then (err no_update, w)
    else if env.fails w'.trace
    then (err unavailable, w')
    else if takes_name id req.name w.projects
    then (err unique_violation, w')
    else (ok (find project_key id rows), record w' { projects = rows })

unfoldable pub count_tenants : Env → ℕ → Action (Result ℕ)
unfolding query count
count_tenants env id =
    query env tenant_count (λ w. count (λ (t : Tenant). t.project_id == id && is_live t) w.tenants)

-- Tenants refer to their project, deleted ones too: the foreign key keeps such a project.
unfoldable pub delete : Env → ℕ → Action (Result (Unit {0}))
unfolding exists select
delete env id w =
    let w' = log (sql project_delete) w in
    if env.fails w'.trace
    then (err unavailable, w')
    else if not (exists (is_project id) w.projects)
    then (err no_rows, w')
    else if exists (λ (t : Tenant). t.project_id == id) w.tenants
    then (err foreign_key, w')
    else (ok tt, record w' { projects = select (λ p. not (is_project id p)) w.projects })
