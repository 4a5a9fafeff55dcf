-- ===== src/Provisioner/Settles.antt =====
-- Where a provisioning run leaves its tenant and the memory reserved for it.
use controlplane.Prelude.{
  ℕ, ◌-◌, ◌≡◌, refl, ◌∙◌, ◌⊎◌, inl, inr, false, Option, none, some, String, arith, ◌∷◌, ltb,
  Bool-cases, ◌||◌,
}
use controlplane.Table.{Unique}
use controlplane.World.{
  World, Env, Job, provisioning, active, error, Result, ok, err, sql, tenant_set_error,
  tenant_set_active, node_release, exec_tenants, is_status, History, deleting, log,
}
use controlplane.Tenant.Store.{tenant_id, set_error, set_active, activated, errored}
use controlplane.Tenant.Status.{status_of, transition_moves}
use controlplane.Node.Store.{node_key, release_ram}
use controlplane.Node.Allocated.{allocated_of, release_ram_lowers, release_ram-tenants}
use controlplane.Provisioner.Settings.{Config}
use controlplane.Provisioner.Steps.{◌>>=◌, or_fail, when, fail_job, cleanup_and_fail}
use controlplane.Provisioner.Provision.{
  Built, build, announce, provision_steps, do_provision, always,
}
use controlplane.Provisioner.Finish.{activate}
use controlplane.Provisioner.Quiet.{Quiet, Quiet-same}
use controlplane.Provisioner.Outcome.{
  HasFailed, Outcome, Runs, bind-Runs, always-Runs, cleanup-Fails, pure-Runs,
}
use controlplane.Provisioner.StageRuns.{
  load_project-Runs, load_node-Runs, connect-Runs, clone-Runs, configure_net-Runs,
  mount_storage-Runs, boot-Runs,
}
use controlplane.Provisioner.FinishRuns.{issue_token-Still, announce-Calm}

build-Runs : (env : Env) (c : Config) (job : Job) → Runs env job (build env c job)
unfolding build
build-Runs env c job = bind-Runs _ _ (load_project-Runs env c job) λ project.
    bind-Runs _ _ (load_node-Runs env c job) λ node. bind-Runs _ _ (connect-Runs env c job) λ _.
      bind-Runs _ _ (clone-Runs env c job project) λ vmid.
        bind-Runs _ _ (configure_net-Runs env c job project vmid) λ ip.
          bind-Runs _ _ (mount_storage-Runs env c job node vmid) λ _.
            bind-Runs _ _ (boot-Runs env c job vmid) λ _.
              bind-Runs _ _ (always-Runs _ (issue_token-Still env c job node vmid))
                λ token. pure-Runs _

-- The tenant's row and its node before a run, or between two of its steps.
pub record IsPending (job : Job) (reserved : ℕ) (w : World) : Type 0 where
  pub tenants_unique : Unique tenant_id w.tenants
  pub nodes_unique : Unique node_key w.nodes
  pub waiting : status_of job.tenant_id w ≡ some provisioning
  pub held : allocated_of job.node_id w ≡ some reserved

IsPending-Quiet :
    (job : Job) (a : ℕ) (w v : World)
    → Quiet job.tenant_id w v
    → IsPending job a w
    → IsPending job a v
IsPending-Quiet job a w v q p = record {
  tenants_unique = q.unique_kept p.tenants_unique;
  nodes_unique = rw q.nodes_kept p.nodes_unique;
  waiting = q.status_kept ∙ p.waiting;
  held = rw q.nodes_kept p.held;
}

-- The database carries out the two statements of the failure path.
pub record CanFail (env : Env) : Type 0 where
  pub marks : (h : History) → env.fails (sql tenant_set_error ∷ h) ≡ false
  pub releases : (h : History) → env.fails (sql node_release ∷ h) ≡ false

-- The tenant is in error and its memory is given back.
abbrev pub IsFailed : Job → ℕ → World → Type 0
IsFailed job a w =
    (status_of job.tenant_id w ≡ some error) × (allocated_of job.node_id w ≡ some (a - job.ram_mb))

-- The tenant is active and holds its memory.
abbrev pub IsActive : Job → ℕ → World → Type 0
IsActive job a w = (status_of job.tenant_id w ≡ some active) × (allocated_of job.node_id w ≡ some a)

set_error_moves :
    (env : Env) (id : ℕ) (message : String) (w : World)
    → Unique tenant_id w.tenants
    → status_of id w ≡ some provisioning
    → env.fails (sql tenant_set_error ∷ w.trace) ≡ false
    → (status_of id (set_error env id message w).1 ≡ some error)
      × ((set_error env id message w).1.nodes ≡ w.nodes)
unfolding set_error
set_error_moves env id message w unique now answers =
    let moved =
      transition_moves env tenant_set_error id
        (λ s. is_status s provisioning || is_status s deleting) (errored message) provisioning error
        (λ _. refl) (λ _. refl) w unique now answers refl in
    (moved.1, moved.2)

give_back :
    (env : Env) (job : Job) (a : ℕ) (w : World)
    → CanFail env
    → Unique node_key w.nodes
    → allocated_of job.node_id w ≡ some a
    → status_of job.tenant_id w ≡ some error
    → IsFailed job a (when (ltb 0 job.ram_mb) (λ v. (release_ram env job.node_id job.ram_mb v).1) w)
unfolding when
give_back env job a w can unique held now = elim (Bool-cases (ltb 0 job.ram_mb)) [
  | inl some_ram ↦ rw some_ram (
    rw (release_ram-tenants env job.node_id job.ram_mb w) now,
    release_ram_lowers env job.node_id job.ram_mb a w unique held (can.releases w.trace),
  )
  | inr no_ram ↦ rw no_ram (now, held ∙ ground arith)
]

pub fail_job-IsFailed :
    (env : Env) (job : Job) (message : String) (a : ℕ) (w : World)
    → CanFail env
    → IsPending job a w
    → IsFailed job a (fail_job env job message w)
unfolding fail_job
fail_job-IsFailed env job message a w can p =
    let (now, nodes) =
      set_error_moves env job.tenant_id message w p.tenants_unique p.waiting (can.marks w.trace) in
    give_back env job a _ can (rw nodes p.nodes_unique) (rw nodes p.held) now

-- Where a run can leave its tenant.
abbrev pub IsSettled : Job → ℕ → World → Type 0
IsSettled job a w = IsActive job a w ⊎ IsFailed job a w

HasFailed-IsFailed :
    (env : Env) (job : Job) (a : ℕ) (w v : World)
    → CanFail env
    → IsPending job a w
    → HasFailed env job w v
    → IsFailed job a v
HasFailed-IsFailed env job a w v can p (message, u, q, e) =
    rw e (fail_job-IsFailed env job message a u can (IsPending-Quiet job a w u q p))

IsActive-Quiet :
    (job : Job) (a : ℕ) (w v : World)
    → Quiet job.tenant_id w v
    → IsActive job a w
    → IsActive job a v
IsActive-Quiet job a w v q (now, held) = (q.status_kept ∙ now, rw q.nodes_kept held)

-- The outcome of `SetActive`, and of the step around it.
abbrev Landed : Job → ℕ → Result (Unit {0}) × World → Type 0
Landed job a (ok _, v) = IsActive job a v
Landed job a (err _, v) = IsPending job a v

abbrev Activated : {A : Type 0} → Job → ℕ → Option A × World → Type 0
Activated job a (some _, v) = IsActive job a v
Activated job a (none, v) = IsFailed job a v

Landed-ok :
    (job : Job) (a : ℕ) (r : Result (Unit {0}) × World)
    → r.0 ≡ ok tt
    → IsActive job a r.1
    → Landed job a r
Landed-ok job a (ok _, v) e h = h
Landed-ok job a (err _, v) e h = cc

set_active-Landed :
    (env : Env) (job : Job) (vmid a : ℕ) (w : World)
    → IsPending job a w
    → Landed job a (set_active env job.tenant_id vmid w)
unfolding set_active
set_active-Landed env job vmid a w p =
    elim (Bool-cases (env.fails (sql tenant_set_active ∷ w.trace))) [
      | inl failed ↦
          unfold exec_tenants in
          rw failed
            (IsPending-Quiet job a w (log (sql tenant_set_active) w) (Quiet-same _ _ refl refl) p)
      | inr answered ↦
          let (done, now, nodes) =
            transition_moves env tenant_set_active job.tenant_id (λ s. is_status s provisioning)
              (activated vmid) provisioning active (λ _. refl) (λ _. refl) w p.tenants_unique
              p.waiting answered refl in
          Landed-ok job a _ done (now, rw nodes p.held)
    ]

activate-Activated :
    (env : Env) (job : Job) (vmid a : ℕ) (w : World)
    → CanFail env
    → IsPending job a w
    → Activated job a (activate env job vmid w)
unfolding activate or_fail
activate-Activated env job vmid a w can p =
    go (set_active env job.tenant_id vmid w) (set_active-Landed env job vmid a w p)
  where
    message : String
    message = "provisioning failed: could not update status"

    go :
        (r : Result (Unit {0}) × World)
        → Landed job a r
        → Activated {A = Unit {0}} job a (elim r.0 [
          | ok x ↦ (some x, r.1)
          | err _ ↦ (none, cleanup_and_fail env job vmid message r.1)
        ])
    go (ok _, v) h = h
    go (err _, v) h = HasFailed-IsFailed env job a v _ can h ((cleanup-Fails vmid message).failed v)

finish-IsSettled :
    (env : Env) (c : Config) (job : Job) (b : Built) (a : ℕ) (r : Option (Unit {0}) × World)
    → Activated job a r
    → IsSettled job a
        (elim r.0 as (λ _. Option (Unit {0}) × World) [
          | none ↦ (none, r.1)
          | some _ ↦ always (λ w. (tt, announce env c job b w)) r.1
        ]).1
unfolding always
finish-IsSettled env c job b a (some _, v) h =
    inl (IsActive-Quiet job a v _ ((announce-Calm env c job b).quiet v) h)
finish-IsSettled env c job b a (none, v) h = inr h

-- Whatever fails on the way, a run that starts with a tenant in `provisioning` and its memory
-- reserved ends in one of two ways: the tenant is active and the memory still reserved, or the tenant
-- is in error and the memory given back. The database carries out the two statements of the failure
-- path, and the primary keys are unique.
pub do_provision-IsSettled :
    (env : Env) (c : Config) (job : Job) (a : ℕ) (w : World)
    → CanFail env
    → IsPending job a w
    → IsSettled job a (do_provision env c job w)
unfolding do_provision provision_steps ◌>>=◌
do_provision-IsSettled env c job a w can p =
    go (build env c job w) ((build-Runs env c job).outcome w)
  where
    go :
        (r : Option Built × World)
        → Outcome env job w r
        → IsSettled job a
            (elim r.0 as (λ _. Option (Unit {0}) × World) [
              | none ↦ (none, r.1)
              | some b ↦
                  (activate env job b.vmid >>= λ _. always (λ v. (tt, announce env c job b v))) r.1
            ]).1
    go (none, v) h = inr (HasFailed-IsFailed env job a w v can p h)
    go (some b, v) q =
        finish-IsSettled env c job b a (activate env job b.vmid v)
          (activate-Activated env job b.vmid a v can (IsPending-Quiet job a w v q p))
