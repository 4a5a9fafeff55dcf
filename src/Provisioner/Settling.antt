-- ===== src/Provisioner/Settling.antt =====
-- The transitions of a deprovisioning, and its last steps.
use controlplane.Prelude.{
  ℕ, ◌-◌, ◌≡◌, refl, ◌∙◌, ap, Bool, true, false, not, ◌&&◌, ◌||◌, some, String, arith, ◌∷◌, ltb,
  Bool-cases, inl, inr,
}
use controlplane.Table.{Unique, Unique-update}
use controlplane.World.{
  World, Env, Status, Error, error, provisioning, deleting, deleted, is_status, Result, ok, err,
  sql, tenant_set_error, tenant_set_deleting, tenant_set_deleted, node_release, exec_tenants,
  exec_nodes, History, call, remove_route,
}
use controlplane.Tenant.Store.{
  tenant_id, at, set_error, set_deleting, set_deleted, errored, with_status, is_deletable,
}
use controlplane.Tenant.Status.{status_of, status_in, transition_moves}
use controlplane.Node.Store.{node_key, at_node, released, release_ram}
use controlplane.Node.Allocated.{
  allocated_of, allocated_in, release_ram_lowers, release_ram-tenants,
}
use controlplane.Provisioner.Settings.{Config, is_empty}
use controlplane.Provisioner.Steps.{when}
use controlplane.Provisioner.Teardown.{Target, settle}
use controlplane.Provisioner.Quiet.{Quiet, Quiet-refl, call-Still}

-- The row of the tenant and the memory of its node, with unique keys.
pub record Stands (t : Target) (s : Status) (a : ℕ) (w : World) : Type 0 where
  pub tenants_unique : Unique tenant_id w.tenants
  pub nodes_unique : Unique node_key w.nodes
  pub status_now : status_of t.tenant_id w ≡ some s
  pub held : allocated_of t.node_id w ≡ some a

-- The database carries out the statements of a deprovisioning.
pub record CanEnd (env : Env) : Type 0 where
  pub claims : (h : History) → env.fails (sql tenant_set_deleting ∷ h) ≡ false
  pub marks : (h : History) → env.fails (sql tenant_set_error ∷ h) ≡ false
  pub releases : (h : History) → env.fails (sql node_release ∷ h) ≡ false
  pub removes : (h : History) → env.fails (sql tenant_set_deleted ∷ h) ≡ false

-- What a deprovisioning of a tenant that may be deleted leaves.
abbrev pub EndOf : Target → ℕ → Result (Unit {0}) × World → Type 0
EndOf t a (ok _, v) =
    (status_of t.tenant_id v ≡ some deleted) × (allocated_of t.node_id v ≡ some (a - t.ram_mb))
EndOf t a (err e, v) = (status_of t.tenant_id v ≡ some error) × (allocated_of t.node_id v ≡ some a)

pub Stands-Quiet :
    (t : Target) (s : Status) (a : ℕ) (w v : World)
    → Quiet t.tenant_id w v
    → Stands t s a w
    → Stands t s a v
Stands-Quiet t s a w v q p = record {
  tenants_unique = q.unique_kept p.tenants_unique;
  nodes_unique = rw q.nodes_kept p.nodes_unique;
  status_now = q.status_kept ∙ p.status_now;
  held = rw q.nodes_kept p.held;
}

-- The three transitions, from the statuses that a deprovisioning meets.
module _ (env : Env) (t : Target) (a : ℕ) (w : World) (can : CanEnd env) where
  pub claim-Stands :
      (s : Status)
      → is_deletable s ≡ true
      → Stands t s a w
      → ((set_deleting env t.tenant_id w).0 ≡ ok tt)
        × Stands t deleting a (set_deleting env t.tenant_id w).1
  claim-Stands s from p = (
    moved.0,
    record {
      tenants_unique = claimed-Unique;
      nodes_unique = rw moved.2 p.nodes_unique;
      status_now = moved.1;
      held = ap (allocated_in t.node_id) moved.2 ∙ p.held;
    },
  )
    where
      moved :
          ((set_deleting env t.tenant_id w).0 ≡ ok tt)
          × (status_of t.tenant_id (set_deleting env t.tenant_id w).1 ≡ some deleting)
          × ((set_deleting env t.tenant_id w).1.nodes ≡ w.nodes)
      moved =
          unfold set_deleting in
          transition_moves env tenant_set_deleting t.tenant_id is_deletable (with_status deleting) s
            deleting (λ _. refl) (λ _. refl) w p.tenants_unique p.status_now (can.claims w.trace)
            from

      claimed-Unique : Unique tenant_id (set_deleting env t.tenant_id w).1.tenants
      claimed-Unique =
          unfold set_deleting in
          unfold exec_tenants in
          ground (
            arith,
            Unique-update tenant_id (at t.tenant_id (λ t. is_deletable t.status))
                (with_status deleting) (λ _. refl) w.tenants p.tenants_unique,
          )

  pub set_error-EndOf :
      (message : String) (e : Error)
      → Stands t deleting a w
      → EndOf t a (err e, (set_error env t.tenant_id message w).1)
  unfolding set_error
  set_error-EndOf message e p =
      let (done, now, nodes) =
        transition_moves env tenant_set_error t.tenant_id
          (λ s. is_status s provisioning || is_status s deleting) (errored message) deleting error
          (λ _. refl) (λ _. refl) w p.tenants_unique p.status_now (can.marks w.trace) refl in
      (now, ap (allocated_in t.node_id) nodes ∙ p.held)

  pub set_deleted-EndOf :
      (b : ℕ) → Stands t deleting b w → b ≡ a - t.ram_mb → EndOf t a (set_deleted env t.tenant_id w)
  unfolding set_deleted
  set_deleted-EndOf b p lowered =
      let (done, now, nodes) =
        transition_moves env tenant_set_deleted t.tenant_id (λ s. is_status s deleting)
          (with_status deleted) deleting deleted (λ _. refl) (λ _. refl) w p.tenants_unique
          p.status_now (can.removes w.trace) refl in
      rw (EndOf, done) (now, ap (allocated_in t.node_id) nodes ∙ p.held ∙ ap some lowered)

-- The memory and the route of a tenant in `deleting`, and the last transition.
pub lower-Stands :
    (env : Env) (t : Target) (a : ℕ) (w : World)
    → CanEnd env
    → Stands t deleting a w
    → Stands t deleting
        (a - t.ram_mb)
        (when (ltb 0 t.ram_mb) (λ v. (release_ram env t.node_id t.ram_mb v).1) w)
unfolding when
lower-Stands env t a w can p = elim (Bool-cases (ltb 0 t.ram_mb)) [
  | inl some_ram ↦ rw some_ram (record {
    tenants_unique = rw (release_ram-tenants env t.node_id t.ram_mb w) p.tenants_unique;
    nodes_unique = released-Unique;
    status_now =
        ap (status_in t.tenant_id) (release_ram-tenants env t.node_id t.ram_mb w) ∙ p.status_now;
    held =
        release_ram_lowers env t.node_id t.ram_mb a w p.nodes_unique p.held (can.releases w.trace);
  })
  | inr no_ram ↦ rw no_ram (record {
    tenants_unique = p.tenants_unique;
    nodes_unique = p.nodes_unique;
    status_now = p.status_now;
    held = p.held ∙ ground arith;
  })
]
  where
    released-Unique : Unique node_key (release_ram env t.node_id t.ram_mb w).1.nodes
    released-Unique =
        unfold release_ram in
        unfold exec_nodes in
        ground (
          arith,
          Unique-update node_key (at_node t.node_id (λ _. true)) (released t.ram_mb) (λ _. refl)
              w.nodes p.nodes_unique,
        )

pub when-Quiet :
    {k : ℕ} (b : Bool) (f : World → World) (w : World)
    → ((v : World) → Quiet k v (f v))
    → Quiet k w (when b f w)
unfolding when
when-Quiet true f w q = q w
when-Quiet false f w q = Quiet-refl w

pub settle-EndOf :
    (env : Env) (c : Config) (t : Target) (a : ℕ) (w : World)
    → CanEnd env
    → Stands t deleting a w
    → EndOf t a (settle env c t w)
unfolding settle
settle-EndOf env c t a w can p =
    let w1 = when (ltb 0 t.ram_mb) (λ v. (release_ram env t.node_id t.ram_mb v).1) w in
    let route = λ (v : World). (call env (remove_route t.subdomain) v).1 in
    let w2 = when (c.caddy_client && not (is_empty t.subdomain)) route w1 in
    set_deleted-EndOf env t a w2 can (a - t.ram_mb)
      (Stands-Quiet t deleting (a - t.ram_mb) w1 w2
        (when-Quiet _ route w1 (call-Still env (remove_route t.subdomain)).quiet)
        (lower-Stands env t a w can p))
      refl
