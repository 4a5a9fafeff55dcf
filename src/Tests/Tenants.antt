-- ===== src/Tests/Tenants.antt =====
-- internal/tenant at concrete inputs.
use controlplane.Prelude.{
  ◌≡◌, ◌↔◌, ◌≤◌, refl, true, false, none, some, List, [], ◌∷◌, codes, length,
}
use controlplane.World.{
  Status, ok, err, provisioning, active, suspended, error, deleting, deleted, state_conflict, sql,
  tenant_set_deleting, log,
}
use controlplane.Table.{find}
use controlplane.Tenant.Store.{Filter, set_deleting, list_paginated}
use controlplane.Tenant.Status.{status_of, status_in}
use controlplane.Tenant.Subdomain.{validate_subdomain, is_reserved}
use controlplane.Tenant.Pattern.{Matches, subdomain_pattern, validate_subdomain_iff}
use controlplane.Tenant.Moves.{Walk}
use controlplane.Tenant.History.{
  TenantOp, create_op, suspended_op, resumed_op, deleting_op, deleted_op, active_op, error_op,
  ip_op, run, run-Walk,
}
use controlplane.Tenant.Deleting.{set_deleting-set_deleting}
use controlplane.Tenant.Pages.{PageOf, list_paginated-PageOf}
use controlplane.Tenant.Lifecycle.{CreateParams, create_tenant, delete_bare, Service}
use controlplane.Tenant.Creation.{CreationOf, create_tenant-CreationOf}
use controlplane.Tenant.Removal.{CanDelete, delete_bare-deleted, delete_bare-fail_job}
use controlplane.Node.Allocated.{allocated_of, allocated_in}
use controlplane.Provisioner.{default_config, fail_job}
use controlplane.Provisioner.Settles.{CanFail, IsPending}
use controlplane.Tests.Setup.{calm, a_node, a_project, a_tenant, a_job, with_tenant}

validate_subdomain_iff_example : (validate_subdomain (codes "radio-1") ≡ none) ↔ (
    Matches subdomain_pattern (codes "radio-1") []
    × (length (codes "radio-1") ≤ 63)
    × (is_reserved (codes "radio-1") ≡ false))
validate_subdomain_iff_example = validate_subdomain_iff (codes "radio-1")

-- A life of the tenant 3: the stray statements are refused.
abbrev tenant_ops : List TenantOp
tenant_ops =
    create_op
      (record { name = codes "other"; project_id = 7; node_id = 1; subdomain = codes "other" })
      (some 5)
    ∷ resumed_op 3
    ∷ active_op 3 101
    ∷ ip_op 3 (codes "172.16.0.2")
    ∷ suspended_op 3
    ∷ error_op 3 "late"
    ∷ deleting_op 3
    ∷ deleted_op 3
    ∷ active_op 3 101
    ∷ []

run-Walk_example :
    (u : Status) × (status_of 3 (run calm tenant_ops (with_tenant provisioning)) ≡ some u)
    × Walk provisioning u
unfolding find status_in
run-Walk_example = run-Walk 3 calm tenant_ops (with_tenant provisioning) provisioning refl

set_deleting-set_deleting_example :
    let v = (set_deleting calm 3 (with_tenant suspended)).1 in
    ((set_deleting calm 3 (with_tenant suspended)).0 ≡ ok tt)
    × (status_of 3 v ≡ some deleting)
    × (set_deleting calm 3 v ≡ (err state_conflict, log (sql tenant_set_deleting) v))
unfolding find status_in
set_deleting-set_deleting_example =
    set_deleting-set_deleting calm 3 suspended (with_tenant suspended) (tt, tt) refl refl
      (λ _. refl)

abbrev all_active : Filter
all_active = record { status = some active; node_id = none; project_id = some 7 }

list_paginated-PageOf_example :
    PageOf all_active 10 0
      (with_tenant active).tenants
      (list_paginated calm 10 0 all_active (with_tenant active)).0
list_paginated-PageOf_example = list_paginated-PageOf calm 10 0 all_active (with_tenant active) refl

abbrev a_service : Service
a_service = record { audited = true; provisioner = default_config }

abbrev second : CreateParams
second = record {
  name = codes "second";
  subdomain = codes "second";
  project = a_project;
  node = a_node;
  owner_id = some 5;
}

create_tenant-CreationOf_example :
    CreationOf second 1024
      (with_tenant active)
      (create_tenant calm a_service second (some 5) (with_tenant active))
unfolding find allocated_in
create_tenant-CreationOf_example =
    create_tenant-CreationOf calm a_service second (some 5) 1024 (with_tenant active) (λ _. refl)
      (tt, tt) refl

abbrev calm-CanDelete : CanDelete calm
calm-CanDelete = record { claims = λ _. refl; releases = λ _. refl; removes = λ _. refl }

delete_bare-deleted_example :
    let r = delete_bare calm a_tenant 512 (with_tenant error) in
    (r.0 ≡ none) × (status_of 3 r.1 ≡ some deleted) × (allocated_of 1 r.1 ≡ some 512)
unfolding find status_in allocated_in
delete_bare-deleted_example =
    delete_bare-deleted calm a_tenant 512 1024 error (with_tenant error) calm-CanDelete (tt, tt)
      (tt, tt) refl refl refl

abbrev calm-CanFail : CanFail calm
calm-CanFail = record { marks = λ _. refl; releases = λ _. refl }

calm-IsPending : IsPending a_job 1024 (with_tenant provisioning)
unfolding find status_in allocated_in
calm-IsPending = record {
  tenants_unique = (tt, tt);
  nodes_unique = (tt, tt);
  waiting = refl;
  held = refl;
}

delete_bare-fail_job_example :
    allocated_of 1
      (delete_bare calm a_tenant 512
        (fail_job calm a_job "no address" (with_tenant provisioning))).1
    ≡ some 0
delete_bare-fail_job_example =
    delete_bare-fail_job calm a_job "no address" a_tenant 1024 (with_tenant provisioning)
      calm-CanFail calm-CanDelete calm-IsPending refl refl
