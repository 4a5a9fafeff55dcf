-- ===== src/Tenant/Marking.antt =====
-- The statement that marks a tenant before its container is switched.
use controlplane.Prelude.{ℕ, ◌≡◌, refl, inl, inr, Bool, true, some, ◌∷◌, arith, Bool-cases}
use controlplane.Table.{Unique, Unique-update}
use controlplane.World.{
  World, Env, Status, provisioning, active, suspended, error, deleting, deleted, is_status, Result,
  ok, err, sql, Statement, exec_tenants,
}
use controlplane.Tenant.Store.{tenant_id, at, transition, with_status}
use controlplane.Tenant.Status.{status_of, transition_moves}

pub is_status-eq : (s u : Status) → is_status s u ≡ true → s ≡ u
is_status-eq provisioning provisioning h = refl
is_status-eq active active h = refl
is_status-eq suspended suspended h = refl
is_status-eq error error h = refl
is_status-eq deleting deleting h = refl
is_status-eq deleted deleted h = refl
is_status-eq _ _ h = cc

-- The outcome of the statement that marks the tenant.
abbrev pub MarkOf : ℕ → Status → World → Result (Unit {0}) × World → Type 0
MarkOf id to w (ok _, v) = Unique tenant_id v.tenants × (status_of id v ≡ some to)
MarkOf id to w (err e, v) = status_of id v ≡ status_of id w

pub transition-MarkOf :
    (env : Env) (c : Statement) (id : ℕ) (from : Status → Bool) (s to : Status) (w : World)
    → Unique tenant_id w.tenants
    → status_of id w ≡ some s
    → from s ≡ true
    → MarkOf id to w (transition env c id from (with_status to) w)
transition-MarkOf env c id from s to w unique now starts =
    elim (Bool-cases (env.fails (sql c ∷ w.trace))) [
      | inl down ↦ unfold exec_tenants in rw down refl
      | inr up ↦
          let (done, later, nodes) =
            transition_moves env c id from (with_status to) s to (λ _. refl) (λ _. refl) w unique
              now up starts in
          marked _ done kept later
    ]
  where
    kept : Unique tenant_id (transition env c id from (with_status to) w).1.tenants
    kept =
        unfold exec_tenants in
        ground (
          arith,
          Unique-update tenant_id (at id (λ t. from t.status)) (with_status to) (λ _. refl)
              w.tenants unique,
        )

    marked :
        (r : Result (Unit {0}) × World)
        → r.0 ≡ ok tt
        → Unique tenant_id r.1.tenants
        → status_of id r.1 ≡ some to
        → MarkOf id to w r
    marked (ok _, v) e u h = (u, h)
    marked (err x, v) e u h = cc
