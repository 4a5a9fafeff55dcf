-- ===== src/Tenant/Handler.antt =====
-- internal/tenant/handler.go: the handlers of the operators' API, from the decoded request on; the
-- format of the ids is checked before. internal/tenant/user_handler.go suspends and resumes likewise.
use controlplane.Prelude.{ℕ, Option, none, some, String, not, if◌then◌else◌, ◌||◌}
use controlplane.World.{
  World, Env, Tenant, Node, Project, Status, active, suspended, is_status, is_online, Error,
  state_conflict, no_update, unique_violation, Result, ok, err, Action, Deed, suspend_deed,
  resume_deed, update_deed,
}
use controlplane.Tenant.Store.{
  CreateTenantRequest, UpdateTenantRequest, get_by_id, set_suspended, set_resumed, update_fields,
}
use controlplane.Tenant.Subdomain.{
  FailureKind, invalid, conflict, internal, LifecycleError, validate_subdomain,
}
use controlplane.Tenant.Lifecycle.{
  Service, Actor, CreateParams, done, failed, audit, create_tenant, delete_tenant,
}
use controlplane.Node.Store.{get_by_id as get_node}
use controlplane.Project.{get_by_id as get_project}
use controlplane.Provisioner.{suspend, resume, is_empty}

-- The status of the response, and what is sent or the message of the error.
pub data Reply (A : Type 0) : Type 0 where
  sends : ℕ → A → Reply A
  refuses : ℕ → String → Reply A

-- What `Suspend` and `Resume` differ in.
pub record Switch : Type 0 where
  pub from : Status
  pub mark : Env → ℕ → Action (Result (Unit {0}))
  pub undo : Env → ℕ → Action (Result (Unit {0}))
  pub act : Env → ℕ → ℕ → Action (Result (Unit {0}))
  pub deed : Deed
  pub not_from : String
  pub conflicts : String
  pub not_marked : String
  pub not_done : String

abbrev pub suspension : Switch
suspension = record {
  from = active;
  mark = set_suspended;
  undo = set_resumed;
  act = suspend;
  deed = suspend_deed;
  not_from = "tenant must be active to suspend";
  conflicts = "tenant is not in a suspendable state";
  not_marked = "failed to suspend tenant";
  not_done = "failed to stop container";
}

abbrev pub resumption : Switch
resumption = record {
  from = suspended;
  mark = set_resumed;
  undo = set_suspended;
  act = resume;
  deed = resume_deed;
  not_from = "tenant must be suspended to resume";
  conflicts = "tenant is not in a resumable state";
  not_marked = "failed to resume tenant";
  not_done = "failed to start container";
}

-- The audit entry and the record as it is then.
unfoldable pub confirm : Env → Service → Switch → Actor → ℕ → World → Reply (Option Tenant) × World
confirm env svc k actor id w =
    let (r, w') = get_by_id env id (audit svc k.deed id actor w) in
    (elim r [ err e ↦ refuses 500 "failed to get tenant" | ok t ↦ sends 200 t ], w')

abbrev pub act_on : Env → Switch → Tenant → Action (Result (Unit {0}))
act_on env k t w = elim t.lxc_id [ none ↦ (ok tt, w) | some vmid ↦ k.act env t.node_id vmid w ]

-- The container after the database, and the database back if that fails.
unfoldable pub switch_container :
    Env → Service → Switch → Actor → ℕ → Tenant → World → Reply (Option Tenant) × World
switch_container env svc k actor id t w =
    let (acted, w1) = act_on env k t w in
    elim acted [
      | ok _ ↦ confirm env svc k actor id w1
      | err e ↦ (refuses 500 k.not_done, (k.undo env id w1).1)
    ]

abbrev pub mark_error : Switch → Error → Reply (Option Tenant)
mark_error k state_conflict = refuses 409 k.conflicts
mark_error k e = refuses 500 k.not_marked

unfoldable pub switch_found :
    Env → Service → Switch → Actor → ℕ → Tenant → World → Reply (Option Tenant) × World
switch_found env svc k actor id t w =
    if not (is_status t.status k.from)
    then (refuses 409 k.not_from, w)
    else (let (marked, w1) = k.mark env id w in
        elim marked [
          | err e ↦ (mark_error k e, w1)
          | ok _ ↦ switch_container env svc k actor id t w1
        ])

-- `Handler.Suspend` and `Handler.Resume`, without an actor.
unfoldable pub switch : Env → Service → Switch → Actor → ℕ → World → Reply (Option Tenant) × World
switch env svc k actor id w =
    let (found, w1) = get_by_id env id w in
    elim found [
      | err e ↦ (refuses 500 "failed to get tenant", w1)
      | ok none ↦ (refuses 404 "tenant not found", w1)
      | ok (some t) ↦ switch_found env svc k actor id t w1
    ]

abbrev pub update_error : Error → Reply Tenant
update_error no_update = refuses 400 "no fields to update"
update_error unique_violation = refuses 409 "name already exists"
update_error e = refuses 500 "failed to update tenant"

-- `Handler.Update`.
unfoldable pub handle_update :
    Env → Service → ℕ → UpdateTenantRequest → World → Reply Tenant × World
handle_update env svc id req w =
    let (r, w1) = update_fields env id req w in
    elim r [
      | err e ↦ (update_error e, w1)
      | ok none ↦ (refuses 404 "tenant not found", w1)
      | ok (some t) ↦ (sends 200 t, audit svc update_deed t.id none w1)
    ]

-- `lifecycleStatus`.
abbrev pub lifecycle_status : FailureKind → ℕ
lifecycle_status invalid = 400
lifecycle_status conflict = 409
lifecycle_status internal = 500

abbrev pub respond_lifecycle : {A : Type 0} → LifecycleError → Reply A
respond_lifecycle e = refuses (lifecycle_status e.kind) e.message

-- `Handler.Delete`.
unfoldable pub handle_delete : Env → Service → ℕ → World → Reply (Option Tenant) × World
handle_delete env svc id w =
    let (found, w1) = get_by_id env id w in
    elim found [
      | err e ↦ (refuses 500 "failed to get tenant", w1)
      | ok none ↦ (refuses 404 "tenant not found", w1)
      | ok (some t) ↦
          let (outcome, w2) = delete_tenant env svc t none w1 in
          (elim outcome [ failed e ↦ respond_lifecycle e | done u ↦ sends 200 u ], w2)
    ]

-- The end of `Handler.Create`, with its node and project.
unfoldable pub create_on :
    Env → Service → CreateTenantRequest → Node → Project → World → Reply Tenant × World
create_on env svc req n p w =
    let params : CreateParams = record {
      name = req.name;
      subdomain = req.subdomain;
      project = p;
      node = n;
      owner_id = none;
    } in
    let (outcome, w1) = create_tenant env svc params none w in
    (elim outcome [ failed e ↦ respond_lifecycle e | done t ↦ sends 202 t ], w1)

unfoldable pub find_project :
    Env → Service → CreateTenantRequest → Node → World → Reply Tenant × World
find_project env svc req n w =
    let (found, w1) = get_project env req.project_id w in
    elim found [
      | err e ↦ (refuses 500 "failed to validate project", w1)
      | ok none ↦ (refuses 404 "project not found", w1)
      | ok (some p) ↦ create_on env svc req n p w1
    ]

unfoldable pub find_node : Env → Service → CreateTenantRequest → World → Reply Tenant × World
find_node env svc req w =
    let (found, w1) = get_node env req.node_id w in
    elim found [
      | err e ↦ (refuses 500 "failed to validate node", w1)
      | ok none ↦ (refuses 404 "node not found", w1)
      | ok (some n) ↦
          if not (is_online n.status)
          then (refuses 400 "node is not active", w1)
          else find_project env svc req n w1
    ]

-- `Handler.Create`.
unfoldable pub handle_create : Env → Service → CreateTenantRequest → World → Reply Tenant × World
handle_create env svc req w =
    if is_empty req.name || is_empty req.subdomain
    then (refuses 400 "name, project_id, node_id, and subdomain are required", w)
    else elim (validate_subdomain req.subdomain) [
      | some e ↦ (respond_lifecycle e, w)
      | none ↦ find_node env svc req w
    ]
