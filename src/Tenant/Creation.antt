-- ===== src/Tenant/Creation.antt =====
-- `LifecycleService.Create` of internal/tenant/lifecycle.go: the row, the memory and the job of a new
-- tenant.
use controlplane.Prelude.{
  ℕ, ◌+◌, ◌≡◌, refl, ◌∙◌, Bool, true, false, Option, none, some, ◌∷◌, arith, if◌then◌else◌, ap,
}
use controlplane.Table.{Unique}
use controlplane.World.{
  World, Env, Tenant, provisioning, Result, ok, err, sql, node_release, History, exec_nodes,
  AuditEntry, create_deed,
}
use controlplane.Tenant.Lifecycle.{
  Service, CreateParams, Actor, Outcome, done, failed, create_tenant, after_reserve, after_insert,
  create_record, job_of, audit, request_of,
}
use controlplane.Tenant.Subdomain.{LifecycleError, validate_subdomain}
use controlplane.Node.Store.{node_key, reserve_ram, release_ram}
use controlplane.Node.Allocated.{
  allocated_in, allocated_of, release_ram_lowers, release_ram-tenants,
}
use controlplane.Provisioner.{provision}
use controlplane.Tenant.Reservation.{InsertOf, create_record-InsertOf, HoldOf, reserve_ram-HoldOf}

-- What a creation that is done leaves: the new row is first and in `provisioning`, the memory of the
-- project is reserved, and one job is started for the row, with the memory that was reserved.
pub record IsCreated (p : CreateParams) (a : ℕ) (t : Tenant) (w v : World) : Type 0 where
  pub row_added : v.tenants ≡ t ∷ w.tenants
  pub row_waits : t.status ≡ provisioning
  pub row_owner : t.owner_id ≡ p.owner_id
  pub memory_held : allocated_of p.node.id v ≡ some (a + p.project.ram_mb)
  pub job_started : v.jobs ≡ job_of p t ∷ w.jobs

-- What a creation that failed leaves: the tenants, the memory and the jobs as they were.
pub record IsRefused (p : CreateParams) (a : ℕ) (w v : World) : Type 0 where
  pub tenants_kept : v.tenants ≡ w.tenants
  pub memory_kept : allocated_of p.node.id v ≡ some a
  pub jobs_kept : v.jobs ≡ w.jobs

abbrev pub CreationOf : CreateParams → ℕ → World → Outcome Tenant × World → Type 0
CreationOf p a w (done t, v) = IsCreated p a t w v
CreationOf p a w (failed e, v) = IsRefused p a w v

release_ram-jobs : (env : Env) (id ram : ℕ) (w : World) → (release_ram env id ram w).1.jobs ≡ w.jobs
unfolding release_ram exec_nodes
release_ram-jobs env id ram w = ground arith

audit-IsCreated :
    (svc : Service) (p : CreateParams) (actor : Actor) (a : ℕ) (t : Tenant) (w v : World)
    → IsCreated p a t w v
    → IsCreated p a t w (audit svc create_deed t.id actor v)
unfolding audit
audit-IsCreated svc p actor a t w v c = go svc.audited
  where
    entry : AuditEntry
    entry = record { deed = create_deed; entity_id = t.id; user_id = actor }

    go : (b : Bool) → IsCreated p a t w (if b then record v { audits = entry ∷ v.audits } else v)
    go true = record {
      row_added = c.row_added;
      row_waits = c.row_waits;
      row_owner = c.row_owner;
      memory_held = c.memory_held;
      job_started = c.job_started;
    }
    go false = c

-- The end of a creation whose memory is reserved.
after_insert-CreationOf :
    (env : Env) (svc : Service) (p : CreateParams) (actor : Actor) (a : ℕ) (w v : World)
    → ((h : History) → env.fails (sql node_release ∷ h) ≡ false)
    → allocated_of p.node.id v ≡ some (a + p.project.ram_mb)
    → Unique node_key v.nodes
    → v.tenants ≡ w.tenants
    → v.jobs ≡ w.jobs
    → (r : Result Tenant × World) → InsertOf (request_of p) p.owner_id v r
    → CreationOf p a w (after_insert env svc p actor r.0 r.1)
unfolding after_insert audit provision
after_insert-CreationOf env svc p actor a w v answers held unique tenants jobs (ok t, u) h =
    let (rows, status, owner, nodes, started) = h in
    let created : IsCreated p a t w (provision (job_of p t) u) = record {
      row_added = rows ∙ ap (λ ts. t ∷ ts) tenants;
      row_waits = status;
      row_owner = owner;
      memory_held = ap (allocated_in p.node.id) nodes ∙ held;
      job_started = ap (λ js. job_of p t ∷ js) (started ∙ jobs);
    } in
    audit-IsCreated svc p actor a t w _ created
after_insert-CreationOf env svc p actor a w v answers held unique tenants jobs (err e, u) h =
    let (rows, nodes, started) = h in
    record {
      tenants_kept = release_ram-tenants env p.node.id p.project.ram_mb u ∙ rows ∙ tenants;
      memory_kept =
          release_ram_lowers env p.node.id p.project.ram_mb (a + p.project.ram_mb) u
            (rw nodes unique) (ap (allocated_in p.node.id) nodes ∙ held) (answers u.trace)
          ∙ ap some (omega arith);
      jobs_kept = release_ram-jobs env p.node.id p.project.ram_mb u ∙ started ∙ jobs;
    }

after_reserve-CreationOf :
    (env : Env) (svc : Service) (p : CreateParams) (actor : Actor) (a : ℕ) (w : World)
    → ((h : History) → env.fails (sql node_release ∷ h) ≡ false)
    → allocated_of p.node.id w ≡ some a
    → (r : Result (Unit {0}) × World) → HoldOf p.node.id p.project.ram_mb a w r
    → CreationOf p a w (after_reserve env svc p actor r.0 r.1)
unfolding after_reserve
after_reserve-CreationOf env svc p actor a w answers now (ok _, v) (held, unique, tenants, jobs) =
    after_insert-CreationOf env svc p actor a w v answers held unique tenants jobs
      (create_record env p p.owner_id v) (create_record-InsertOf env p p.owner_id v)
after_reserve-CreationOf env svc p actor a w answers now (err e, v) (nodes, tenants, jobs) =
    record {
      tenants_kept = tenants;
      memory_kept = ap (allocated_in p.node.id) nodes ∙ now;
      jobs_kept = jobs;
    }

-- Whatever fails on the way, a creation ends in one of two ways. It is done: the new row stands in
-- front of the others, in `provisioning` with the owner asked for, the node has the memory of the
-- project reserved, and a job is started with that memory. Or it failed: tenants, memory and jobs are as
-- they were. The node is there, the keys of the nodes are unique, and the database carries out the
-- release of memory.
pub create_tenant-CreationOf :
    (env : Env) (svc : Service) (p : CreateParams) (actor : Actor) (a : ℕ) (w : World)
    → ((h : History) → env.fails (sql node_release ∷ h) ≡ false)
    → Unique node_key w.nodes
    → allocated_of p.node.id w ≡ some a
    → CreationOf p a w (create_tenant env svc p actor w)
unfolding create_tenant
create_tenant-CreationOf env svc p actor a w answers unique now =
    go (validate_subdomain p.subdomain)
  where
    reservation : Result (Unit {0}) × World
    reservation = reserve_ram env p.node.id p.project.ram_mb w

    go :
        (o : Option LifecycleError)
        → CreationOf p a w (elim o as (λ _. Outcome Tenant × World) [
          | some e ↦ (failed e, w)
          | none ↦ after_reserve env svc p actor reservation.0 reservation.1
        ])
    go (some e) = record { tenants_kept = refl; memory_kept = now; jobs_kept = refl }
    go none =
        after_reserve-CreationOf env svc p actor a w answers now reservation
          (reserve_ram-HoldOf env p.node.id p.project.ram_mb a w unique now)
