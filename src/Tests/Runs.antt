-- ===== src/Tests/Runs.antt =====
-- internal/provisioner at concrete inputs.
use controlplane.Prelude.{◌≡◌, refl, some, codes}
use controlplane.World.{
  err, provisioning, active, suspended, deleting, state_conflict, log, sql, tenant_set_deleting,
}
use controlplane.Table.{find}
use controlplane.Tenant.Status.{status_of, status_in}
use controlplane.Node.Allocated.{allocated_of, allocated_in}
use controlplane.Provisioner.{default_config, do_provision, deprovision, Target, recover_panic}
use controlplane.Provisioner.Settles.{CanFail, IsPending, IsSettled, do_provision-IsSettled}
use controlplane.Provisioner.Settling.{Stands, CanEnd, EndOf}
use controlplane.Provisioner.Ends.{deprovision-EndOf, deprovision-conflict}
use controlplane.Provisioner.Stuck.{recover_panic-active}
use controlplane.Tests.Setup.{calm, a_job, with_tenant}

abbrev runs-CanFail : CanFail calm
runs-CanFail = record { marks = λ _. refl; releases = λ _. refl }

waits-IsPending : IsPending a_job 1024 (with_tenant provisioning)
unfolding find status_in allocated_in
waits-IsPending = record {
  tenants_unique = (tt, tt);
  nodes_unique = (tt, tt);
  waiting = refl;
  held = refl;
}

do_provision-IsSettled_example :
    IsSettled a_job 1024 (do_provision calm default_config a_job (with_tenant provisioning))
do_provision-IsSettled_example =
    do_provision-IsSettled calm default_config a_job 1024 (with_tenant provisioning) runs-CanFail
      waits-IsPending

abbrev a_target : Target
a_target = record {
  tenant_id = 3;
  node_id = 1;
  subdomain = codes "first";
  lxc_id = 101;
  ram_mb = 512;
}

abbrev calm-CanEnd : CanEnd calm
calm-CanEnd = record {
  claims = λ _. refl;
  marks = λ _. refl;
  releases = λ _. refl;
  removes = λ _. refl;
}

suspended-Stands : Stands a_target suspended 1024 (with_tenant suspended)
unfolding find status_in allocated_in
suspended-Stands = record {
  tenants_unique = (tt, tt);
  nodes_unique = (tt, tt);
  status_now = refl;
  held = refl;
}

deleting-Stands : Stands a_target deleting 1024 (with_tenant deleting)
unfolding find status_in allocated_in
deleting-Stands = record {
  tenants_unique = (tt, tt);
  nodes_unique = (tt, tt);
  status_now = refl;
  held = refl;
}

deprovision-EndOf_example :
    EndOf a_target 1024 (deprovision calm default_config a_target (with_tenant suspended))
deprovision-EndOf_example =
    deprovision-EndOf calm default_config a_target suspended 1024 (with_tenant suspended)
      calm-CanEnd suspended-Stands refl

deprovision-conflict_example :
    deprovision calm default_config a_target (with_tenant deleting)
    ≡ (err state_conflict, log (sql tenant_set_deleting) (with_tenant deleting))
deprovision-conflict_example =
    deprovision-conflict calm default_config a_target deleting 1024 (with_tenant deleting) refl
      deleting-Stands refl

recover_panic-active_example :
    (status_of 3 (recover_panic calm a_job (with_tenant active)) ≡ some active)
    × (allocated_of 1 (recover_panic calm a_job (with_tenant active)) ≡ some 512)
unfolding find status_in allocated_in
recover_panic-active_example =
    recover_panic-active calm a_job 1024 (with_tenant active) runs-CanFail (tt, tt) (tt, tt) refl
      refl
