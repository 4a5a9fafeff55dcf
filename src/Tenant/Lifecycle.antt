-- ===== src/Tenant/Lifecycle.antt =====
-- internal/tenant/lifecycle.go: `LifecycleService`, which the API, the users' API and the admin pages
-- share. The store it is given can create tenants with an owner.
use controlplane.Prelude.{ℕ, Bool, not, Option, none, some, ◌∷◌, Text, String, ltb, if◌then◌else◌}
use controlplane.World.{
  World, Env, Tenant, Node, Project, Job, Deed, create_deed, delete_deed, Error, state_conflict,
  insufficient_capacity, unique_violation, Result, ok, err,
}
use controlplane.Tenant.Store.{
  CreateTenantRequest, create, create_with_owner, get_by_id, set_deleting, set_deleted,
  is_deletable,
}
use controlplane.Tenant.Subdomain.{
  FailureKind, internal, conflict, LifecycleError, failure, validate_subdomain,
}
use controlplane.Node.Store.{reserve_ram, release_ram}
use controlplane.Project.{get_by_id as get_project}
use controlplane.Provisioner.{Config, provision, deprovision, Target}

-- Whether an audit store is there, and the provisioner's configuration.
pub record Service : Type 0 where
  pub audited : Bool
  pub provisioner : Config

-- `Actor`; `none` stands for the empty user id.
abbrev pub Actor : Type 0
Actor = Option ℕ

pub record CreateParams : Type 0 where
  pub name : Text
  pub subdomain : Text
  pub project : Project
  pub node : Node
  pub owner_id : Option ℕ

pub data Outcome (A : Type 0) : Type 0 where
  done : A → Outcome A
  failed : LifecycleError → Outcome A

abbrev pub because : FailureKind → String → Error → LifecycleError
because kind message e = failure kind message (some e)

unfoldable pub audit : Service → Deed → ℕ → Actor → World → World
audit svc deed id actor w =
    if svc.audited
    then record w { audits = record { deed = deed; entity_id = id; user_id = actor } ∷ w.audits }
    else w

abbrev pub request_of : CreateParams → CreateTenantRequest
request_of p = record {
  name = p.name;
  project_id = p.project.id;
  node_id = p.node.id;
  subdomain = p.subdomain;
}

unfoldable pub create_record : Env → CreateParams → Option ℕ → World → Result Tenant × World
create_record env p none = create env (request_of p)
create_record env p (some owner) = create_with_owner env (request_of p) owner

abbrev pub reserve_error : Error → LifecycleError
reserve_error insufficient_capacity =
    because conflict "insufficient capacity on node" insufficient_capacity
reserve_error e = because internal "failed to reserve resources" e

abbrev pub insert_error : Error → LifecycleError
insert_error unique_violation = because conflict "name or subdomain already exists" unique_violation
insert_error e = because internal "failed to create tenant" e

-- The job that `Provision` is started with.
abbrev pub job_of : CreateParams → Tenant → Job
job_of p t = record {
  tenant_id = t.id;
  node_id = p.node.id;
  project_id = p.project.id;
  subdomain = p.subdomain;
  ram_mb = p.project.ram_mb;
}

-- The end of `Create`, by the outcome of the insert.
unfoldable pub after_insert :
    Env → Service → CreateParams → Actor → Result Tenant → World → Outcome Tenant × World
after_insert env svc p actor (ok t) w =
    (done t, audit svc create_deed t.id actor (provision (job_of p t) w))
after_insert env svc p actor (err e) w =
    (failed (insert_error e), (release_ram env p.node.id p.project.ram_mb w).1)

-- The rest of `Create`, by the outcome of the reservation.
unfoldable pub after_reserve :
    Env → Service → CreateParams → Actor → Result (Unit {0}) → World → Outcome Tenant × World
after_reserve env svc p actor (err e) w = (failed (reserve_error e), w)
after_reserve env svc p actor (ok _) w =
    let (inserted, w') = create_record env p p.owner_id w in
    after_insert env svc p actor inserted w'

unfoldable pub create_tenant : Env → Service → CreateParams → Actor → World → Outcome Tenant × World
create_tenant env svc p actor w = elim (validate_subdomain p.subdomain) [
  | some e ↦ (failed e, w)
  | none ↦
      let (reserved, w') = reserve_ram env p.node.id p.project.ram_mb w in
      after_reserve env svc p actor reserved w'
]

abbrev pub delete_error : String → Error → LifecycleError
delete_error message state_conflict =
    because conflict "tenant is already being deleted" state_conflict
delete_error message e = because internal message e

-- No container: the status is moved by hand, and the memory released in between.
unfoldable pub delete_bare : Env → Tenant → ℕ → World → Option LifecycleError × World
delete_bare env t ram w =
    let (marked, w1) = set_deleting env t.id w in
    elim marked [
      | err e ↦ (some (delete_error "failed to delete tenant" e), w1)
      | ok _ ↦
          let w2 = if ltb 0 ram then (release_ram env t.node_id ram w1).1 else w1 in
          let (removed, w3) = set_deleted env t.id w2 in
          (
            elim removed [
              | err e ↦ some (because internal "failed to delete tenant" e)
              | ok _ ↦ none
            ],
            w3,
          )
    ]

unfoldable pub delete_container_of :
    Env → Service → Tenant → ℕ → ℕ → World → Option LifecycleError × World
delete_container_of env svc t lxc ram w =
    let target : Target = record {
      tenant_id = t.id;
      node_id = t.node_id;
      subdomain = t.subdomain;
      lxc_id = lxc;
      ram_mb = ram;
    } in
    let (r, w1) = deprovision env svc.provisioner target w in
    (elim r [ err e ↦ some (delete_error "failed to deprovision tenant" e) | ok _ ↦ none ], w1)

unfoldable pub tear_down_tenant :
    Env → Service → Tenant → Option ℕ → ℕ → World → Option LifecycleError × World
tear_down_tenant env svc t none ram = delete_bare env t ram
tear_down_tenant env svc t (some lxc) ram = delete_container_of env svc t lxc ram

-- The refreshed record.
unfoldable pub refreshed : Env → Service → Tenant → Actor → World → Outcome (Option Tenant) × World
refreshed env svc t actor w =
    let (r, w') = get_by_id env t.id (audit svc delete_deed t.id actor w) in
    (elim r [ err e ↦ failed (because internal "failed to get tenant" e) | ok u ↦ done u ], w')

-- The memory to give back: the project's, or none if the project is missing.
abbrev pub ram_of : Option Project → ℕ
ram_of none = 0
ram_of (some p) = p.ram_mb

unfoldable pub delete_tenant :
    Env → Service → Tenant → Actor → World → Outcome (Option Tenant) × World
delete_tenant env svc t actor w =
    if not (is_deletable t.status)
    then (
      failed (record {
        kind = conflict;
        message = "tenant cannot be deleted in current status: ";
        quoted = some t.status;
        cause = none;
      }),
      w,
    )
    else (let (found, w1) = get_project env t.project_id w in
        elim found [
          | err e ↦ (failed (because internal "failed to get project" e), w1)
          | ok project ↦
              let (problem, w2) = tear_down_tenant env svc t t.lxc_id (ram_of project) w1 in
              elim problem [ some e ↦ (failed e, w2) | none ↦ refreshed env svc t actor w2 ]
        ])
