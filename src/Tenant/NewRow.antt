-- ===== src/Tenant/NewRow.antt =====
-- What `Create` of internal/tenant/lifecycle.go does to the rows of the tenants.
use controlplane.Prelude.{
  ℕ, ◌≡◌, refl, ◌∙◌, Option, none, some, ◌∷◌, arith, Bool-cases, inl, inr, ap,
}
use controlplane.World.{World, Env, Tenant, provisioning, Result, ok, err, exec_nodes, create_deed}
use controlplane.Tenant.Lifecycle.{
  Service, CreateParams, Actor, Outcome, done, failed, create_tenant, after_reserve, after_insert,
  create_record, job_of, audit, request_of,
}
use controlplane.Tenant.Subdomain.{LifecycleError, validate_subdomain}
use controlplane.Node.Store.{reserve_ram}
use controlplane.Tenant.Reservation.{InsertOf, create_record-InsertOf}
use controlplane.Node.Allocated.{release_ram-tenants}
use controlplane.Provisioner.{provision}

-- What a creation does to the rows alone, with no condition on the database.
abbrev pub RowsOf : CreateParams → World → Outcome Tenant × World → Type 0
RowsOf p w (done t, v) =
    (v.tenants ≡ t ∷ w.tenants) × (t.status ≡ provisioning) × (t.owner_id ≡ p.owner_id)
RowsOf p w (failed e, v) = v.tenants ≡ w.tenants

pub reserve_ram-tenants :
    (env : Env) (id ram : ℕ) (w : World) → (reserve_ram env id ram w).1.tenants ≡ w.tenants
unfolding reserve_ram exec_nodes
reserve_ram-tenants env id ram w = ground arith

pub audit-tenants :
    (svc : Service) (id : ℕ) (actor : Actor) (w : World)
    → (audit svc create_deed id actor w).tenants ≡ w.tenants
unfolding audit
audit-tenants svc id actor w = elim (Bool-cases svc.audited) [
  | inl on ↦ rw on refl
  | inr off ↦ rw off refl
]

pub after_insert-RowsOf :
    (env : Env) (svc : Service) (p : CreateParams) (actor : Actor) (w v : World)
    → v.tenants ≡ w.tenants
    → (r : Result Tenant × World) → InsertOf (request_of p) p.owner_id v r
    → RowsOf p w (after_insert env svc p actor r.0 r.1)
unfolding after_insert provision
after_insert-RowsOf env svc p actor w v same (ok t, u) (rows, status, owner, nodes, started) = (
  audit-tenants svc t.id actor (provision (job_of p t) u) ∙ rows ∙ ap (λ ts. t ∷ ts) same,
  status,
  owner,
)
after_insert-RowsOf env svc p actor w v same (err e, u) (rows, nodes, started) =
    release_ram-tenants env p.node.id p.project.ram_mb u ∙ rows ∙ same

pub create_tenant-RowsOf :
    (env : Env) (svc : Service) (p : CreateParams) (actor : Actor) (w : World)
    → RowsOf p w (create_tenant env svc p actor w)
unfolding create_tenant
create_tenant-RowsOf env svc p actor w = go (validate_subdomain p.subdomain)
  where
    reservation : Result (Unit {0}) × World
    reservation = reserve_ram env p.node.id p.project.ram_mb w

    after :
        (r : Result (Unit {0}) × World)
        → r.1.tenants ≡ w.tenants
        → RowsOf p w (after_reserve env svc p actor r.0 r.1)
    after (ok _, v) same =
        unfold after_reserve in
        after_insert-RowsOf env svc p actor w v same (create_record env p p.owner_id v)
          (create_record-InsertOf env p p.owner_id v)
    after (err e, v) same = unfold after_reserve in same

    go :
        (o : Option LifecycleError)
        → RowsOf p w (elim o as (λ _. Outcome Tenant × World) [
          | some e ↦ (failed e, w)
          | none ↦ after_reserve env svc p actor reservation.0 reservation.1
        ])
    go (some e) = refl
    go none = after reservation (reserve_ram-tenants env p.node.id p.project.ram_mb w)
