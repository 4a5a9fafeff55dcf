-- ===== src/Tenant/Deleting.antt =====
-- The claim to a deletion: `SetDeleting` of internal/tenant/store.go lets one of several callers
-- through.
use controlplane.Prelude.{ℕ, ◌≡◌, refl, true, false, some, arith, ◌∷◌}
use controlplane.Table.{Unique, Unique-update}
use controlplane.World.{
  World, Env, Status, deleting, ok, err, state_conflict, sql, tenant_set_deleting, log,
  exec_tenants, History,
}
use controlplane.Tenant.Store.{tenant_id, at, set_deleting, is_deletable, with_status}
use controlplane.Tenant.Status.{status_of, transition_moves, transition_refused}

pub set_deleting-Unique :
    (env : Env) (id : ℕ) (w : World)
    → Unique tenant_id w.tenants
    → Unique tenant_id (set_deleting env id w).1.tenants
unfolding set_deleting exec_tenants
set_deleting-Unique env id w h = ground (
  arith,
  Unique-update tenant_id (at id (λ t. is_deletable t.status)) (with_status deleting) (λ _. refl)
      w.tenants h,
)

-- Of two callers that delete one tenant, one after the other, the second is refused: the first moves
-- a deletable tenant to `deleting`, and the second is told of the conflict and changes no table. The
-- database answers both statements, and the primary keys are unique.
pub set_deleting-set_deleting :
    (env : Env) (id : ℕ) (s : Status) (w : World)
    → Unique tenant_id w.tenants
    → status_of id w ≡ some s
    → is_deletable s ≡ true
    → ((h : History) → env.fails (sql tenant_set_deleting ∷ h) ≡ false)
    → let v = (set_deleting env id w).1 in
      ((set_deleting env id w).0 ≡ ok tt)
      × (status_of id v ≡ some deleting)
      × (set_deleting env id v ≡ (err state_conflict, log (sql tenant_set_deleting) v))
set_deleting-set_deleting env id s w unique now deletable answers =
    let (done, later, nodes) = first in (done, later, second later)
  where
    first :
        ((set_deleting env id w).0 ≡ ok tt)
        × (status_of id (set_deleting env id w).1 ≡ some deleting)
        × ((set_deleting env id w).1.nodes ≡ w.nodes)
    first =
        unfold set_deleting in
        transition_moves env tenant_set_deleting id is_deletable (with_status deleting) s deleting
          (λ _. refl) (λ _. refl) w unique now (answers w.trace) deletable

    second :
        status_of id (set_deleting env id w).1 ≡ some deleting
        → set_deleting env id (set_deleting env id w).1
          ≡ (err state_conflict, log (sql tenant_set_deleting) (set_deleting env id w).1)
    second later =
        unfold set_deleting in
        transition_refused env tenant_set_deleting id is_deletable (with_status deleting) deleting
          deleting (λ _. refl) (λ _. refl) (set_deleting env id w).1
          (set_deleting-Unique env id w unique) later (answers (set_deleting env id w).1.trace) refl
