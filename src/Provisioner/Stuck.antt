-- ===== src/Provisioner/Stuck.antt =====
-- The recovery of a panic in internal/provisioner/provisioner.go.
use controlplane.Prelude.{
  ℕ, ◌-◌, ◌⊎◌, ◌||◌, arith, ◌≡◌, refl, ◌∙◌, ap, true, false, some, String, ltb, Bool-cases, inl,
  inr,
}
use controlplane.World.{
  World, Env, Job, err, sql, tenant_set_error, log, state_conflict, active, error, provisioning,
  deleting, is_status,
}
use controlplane.Tenant.Store.{tenant_id, set_error, errored}
use controlplane.Table.{Unique}
use controlplane.Tenant.Status.{status_of, status_in, transition_refused}
use controlplane.Node.Store.{node_key, release_ram}
use controlplane.Node.Allocated.{allocated_of, release_ram_lowers, release_ram-tenants}
use controlplane.Provisioner.Steps.{fail_job, when}
use controlplane.Provisioner.Provision.{recover_panic}
use controlplane.Provisioner.Settles.{CanFail}

-- A panic that is recovered after the change of the status gives back the memory of a tenant that stays
-- active. The database answers the two statements, and the keys are unique.
pub recover_panic-active :
    (env : Env) (job : Job) (a : ℕ) (w : World)
    → CanFail env
    → Unique tenant_id w.tenants
    → Unique node_key w.nodes
    → status_of job.tenant_id w ≡ some active
    → allocated_of job.node_id w ≡ some a
    → (status_of job.tenant_id (recover_panic env job w) ≡ some active)
      × (allocated_of job.node_id (recover_panic env job w) ≡ some (a - job.ram_mb))
unfolding recover_panic fail_job
recover_panic-active env job a w can tenants nodes now held =
    rw refused (go (Bool-cases (ltb 0 job.ram_mb)))
  where
    message : String
    message = "provisioning failed: internal panic"

    w1 : World
    w1 = log (sql tenant_set_error) w

    refused : set_error env job.tenant_id message w ≡ (err state_conflict, w1)
    refused =
        unfold set_error in
        transition_refused env tenant_set_error job.tenant_id
          (λ s. is_status s provisioning || is_status s deleting) (errored message) active error
          (λ _. refl) (λ _. refl) w tenants now (can.marks w.trace) refl

    released_from : World → World
    released_from v = (release_ram env job.node_id job.ram_mb v).1

    go :
        (ltb 0 job.ram_mb ≡ true) ⊎ (ltb 0 job.ram_mb ≡ false)
        → (status_of job.tenant_id (when (ltb 0 job.ram_mb) released_from w1) ≡ some active)
          × (allocated_of job.node_id (when (ltb 0 job.ram_mb) released_from w1)
              ≡ some (a - job.ram_mb))
    go (inl some_ram) =
        unfold when in
        rw some_ram (
          ap (status_in job.tenant_id) (release_ram-tenants env job.node_id job.ram_mb w1) ∙ now,
          release_ram_lowers env job.node_id job.ram_mb a w1 nodes held (can.releases w1.trace),
        )
    go (inr no_ram) = unfold when in rw no_ram (now, held ∙ ground arith)
