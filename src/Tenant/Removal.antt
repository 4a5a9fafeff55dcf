-- ===== src/Tenant/Removal.antt =====
-- `LifecycleService.Delete` of internal/tenant/lifecycle.go, for a tenant without a container, and
-- what it gives back.
use controlplane.Prelude.{
  ℕ, ◌-◌, ◌≡◌, refl, ◌∙◌, true, false, none, some, ◌∷◌, arith, ltb, Bool-cases, inl, inr,
  if◌then◌else◌, sym, ap, subst, ◌||◌, String,
}
use controlplane.Table.{Unique, Unique-update}
use controlplane.World.{
  World, Env, Tenant, Job, Status, provisioning, error, deleting, deleted, is_status, ok, sql,
  node_release, tenant_set_deleting, tenant_set_deleted, History, exec_nodes, exec_tenants,
}
use controlplane.Tenant.Store.{
  tenant_id, at, set_deleting, set_deleted, is_deletable, with_status, set_error, errored,
}
use controlplane.Tenant.Status.{status_of, status_in, transition_moves}
use controlplane.Tenant.Deleting.{set_deleting-Unique}
use controlplane.Tenant.Lifecycle.{delete_bare}
use controlplane.Node.Store.{node_key, at_node, released, release_ram}
use controlplane.Node.Allocated.{
  allocated_in, allocated_of, release_ram_lowers, release_ram-tenants,
}
use controlplane.Provisioner.{fail_job, when}
use controlplane.Provisioner.Settles.{IsPending, CanFail, fail_job-IsFailed}

-- The database carries out the three statements of the deletion.
pub record CanDelete (env : Env) : Type 0 where
  pub claims : (h : History) → env.fails (sql tenant_set_deleting ∷ h) ≡ false
  pub releases : (h : History) → env.fails (sql node_release ∷ h) ≡ false
  pub removes : (h : History) → env.fails (sql tenant_set_deleted ∷ h) ≡ false

set_deleting_moves :
    (env : Env) (id : ℕ) (s : Status) (w : World)
    → CanDelete env
    → Unique tenant_id w.tenants
    → status_of id w ≡ some s
    → is_deletable s ≡ true
    → ((set_deleting env id w).0 ≡ ok tt)
      × (status_of id (set_deleting env id w).1 ≡ some deleting)
      × ((set_deleting env id w).1.nodes ≡ w.nodes)
unfolding set_deleting
set_deleting_moves env id s w can unique now from =
    transition_moves env tenant_set_deleting id is_deletable (with_status deleting) s deleting
      (λ _. refl) (λ _. refl) w unique now (can.claims w.trace) from

set_deleted_moves :
    (env : Env) (id : ℕ) (w : World)
    → CanDelete env
    → Unique tenant_id w.tenants
    → status_of id w ≡ some deleting
    → ((set_deleted env id w).0 ≡ ok tt)
      × (status_of id (set_deleted env id w).1 ≡ some deleted)
      × ((set_deleted env id w).1.nodes ≡ w.nodes)
unfolding set_deleted
set_deleted_moves env id w can unique now =
    transition_moves env tenant_set_deleted id (λ s. is_status s deleting) (with_status deleted)
      deleting deleted (λ _. refl) (λ _. refl) w unique now (can.removes w.trace) refl

-- The memory between the two changes of the status.
abbrev lowered : Env → ℕ → ℕ → World → World
lowered env node ram w = if ltb 0 ram then (release_ram env node ram w).1 else w

lowered-tenants :
    (env : Env) (node ram : ℕ) (w : World) → (lowered env node ram w).tenants ≡ w.tenants
lowered-tenants env node ram w = elim (Bool-cases (ltb 0 ram)) [
  | inl some_ram ↦ rw some_ram (release_ram-tenants env node ram w)
  | inr no_ram ↦ rw no_ram refl
]

lowered-allocated :
    (env : Env) (node ram a : ℕ) (w : World)
    → CanDelete env
    → Unique node_key w.nodes
    → allocated_of node w ≡ some a
    → allocated_of node (lowered env node ram w) ≡ some (a - ram)
lowered-allocated env node ram a w can unique held = elim (Bool-cases (ltb 0 ram)) [
  | inl some_ram ↦
      rw some_ram (release_ram_lowers env node ram a w unique held (can.releases w.trace))
  | inr no_ram ↦ rw no_ram (held ∙ ground arith)
]

-- A tenant without a container that may be deleted ends in `deleted`, and the memory of its node is
-- lowered by the amount given, down to 0 at the least. The database carries out the statements, and
-- the keys are unique.
pub delete_bare-deleted :
    (env : Env) (t : Tenant) (ram a : ℕ) (s : Status) (w : World)
    → CanDelete env
    → Unique tenant_id w.tenants
    → Unique node_key w.nodes
    → status_of t.id w ≡ some s
    → is_deletable s ≡ true
    → allocated_of t.node_id w ≡ some a
    → let r = delete_bare env t ram w in
      (r.0 ≡ none)
      × (status_of t.id r.1 ≡ some deleted)
      × (allocated_of t.node_id r.1 ≡ some (a - ram))
unfolding delete_bare
delete_bare-deleted env t ram a s w can tenants nodes now from held =
    let w1 = (set_deleting env t.id w).1 in
    let w2 = lowered env t.node_id ram w1 in
    let (claimed, claim, nodes1) = set_deleting_moves env t.id s w can tenants now from in
    let same = lowered-tenants env t.node_id ram w1 in
    let (removed, end, nodes2) =
      set_deleted_moves env t.id w2 can (rw same (set_deleting-Unique env t.id w tenants))
        (ap (status_in t.id) same ∙ claim) in
    rw (delete_bare, claimed, removed)
      (
        refl,
        end,
        ap (allocated_in t.node_id) nodes2
            ∙ lowered-allocated env t.node_id ram a w1 can (rw nodes1 nodes)
                (ap (allocated_in t.node_id) nodes1 ∙ held),
      )

fail_job-Unique :
    (env : Env) (job : Job) (message : String) (w : World)
    → Unique tenant_id w.tenants
    → Unique node_key w.nodes
    → Unique tenant_id (fail_job env job message w).tenants
      × Unique node_key (fail_job env job message w).nodes
unfolding fail_job when set_error release_ram exec_tenants exec_nodes
fail_job-Unique env job message w tenants nodes = ground (
  arith,
  Unique-update tenant_id
      (at job.tenant_id (λ t. is_status t.status provisioning || is_status t.status deleting))
      (errored message) (λ _. refl) w.tenants tenants,
  Unique-update node_key (at_node job.node_id (λ _. true)) (released job.ram_mb) (λ _. refl) w.nodes
      nodes,
)

-- The memory of a run that failed is given back twice: once by the run, and once more when its tenant,
-- which never had a container, is deleted with the memory of its project. The database carries out the
-- statements of both, and the keys are unique.
pub delete_bare-fail_job :
    (env : Env) (job : Job) (message : String) (t : Tenant) (a : ℕ) (w : World)
    → CanFail env
    → CanDelete env
    → IsPending job a w
    → t.id ≡ job.tenant_id
    → t.node_id ≡ job.node_id
    → allocated_of job.node_id (delete_bare env t job.ram_mb (fail_job env job message w)).1
      ≡ some (a - job.ram_mb - job.ram_mb)
delete_bare-fail_job env job message t a w can_fail can_delete pending same_row same_node =
    let v = fail_job env job message w in
    let (marked, lowered_once) = fail_job-IsFailed env job message a w can_fail pending in
    let (tenants, nodes) =
      fail_job-Unique env job message w pending.tenants_unique pending.nodes_unique in
    subst
      (λ n. allocated_of n (delete_bare env t job.ram_mb v).1 ≡ some (a - job.ram_mb - job.ram_mb))
      same_node
      (delete_bare-deleted env t job.ram_mb (a - job.ram_mb) error v can_delete tenants nodes
        (subst (λ k. status_of k v ≡ some error) (sym same_row) marked) refl
        (subst (λ n. allocated_of n v ≡ some (a - job.ram_mb)) (sym same_node) lowered_once)).2
