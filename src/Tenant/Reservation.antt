-- ===== src/Tenant/Reservation.antt =====
-- The two statements of `Create` of internal/tenant/lifecycle.go that may be refused: the reservation of
-- memory and the insert.
use controlplane.Prelude.{
  ℕ, ◌+◌, ◌≡◌, ◌==◌, ==-refl, ◌&&◌, refl, Bool, true, Option, none, some, ◌∷◌, arith, Option-cases,
  Bool-cases, leb, inl, inr,
}
use controlplane.Table.{
  Unique, find, update, exists, exists-keyed, find-update, find-keyed, Unique-update,
}
use controlplane.World.{
  World, Env, Tenant, provisioning, Result, ok, err, sql, node_reserve, exec_nodes, log,
  tenant_insert, Node, Project,
}
use controlplane.Tenant.Store.{
  CreateTenantRequest, create, create_with_owner, insert_row, new_row, collides,
}
use controlplane.Tenant.Lifecycle.{CreateParams, create_record, request_of}
use controlplane.Node.Store.{node_key, at_node, reserved, reserve_ram}
use controlplane.Node.Allocated.{allocated_in, allocated_of}

-- The insert: a row in front, or nothing.
abbrev pub InsertOf : CreateTenantRequest → Option ℕ → World → Result Tenant × World → Type 0
InsertOf req owner w (ok t, v) =
    (v.tenants ≡ t ∷ w.tenants)
    × (t.status ≡ provisioning)
    × (t.owner_id ≡ owner)
    × (v.nodes ≡ w.nodes)
    × (v.jobs ≡ w.jobs)
InsertOf req owner w (err e, v) = (v.tenants ≡ w.tenants) × (v.nodes ≡ w.nodes) × (v.jobs ≡ w.jobs)

pub insert_row-InsertOf :
    (env : Env) (req : CreateTenantRequest) (owner : Option ℕ) (w : World)
    → InsertOf req owner w (insert_row env req owner w)
unfolding insert_row
insert_row-InsertOf env req owner w =
    let w' = log (sql tenant_insert) w in
    let row = new_row req owner (env.fresh_uuid w'.trace) in
    let known =
      exists (λ (p : Project). p.id == req.project_id) w.projects
      && exists (λ (n : Node). n.id == req.node_id) w.nodes in
    elim (Bool-cases (env.fails w'.trace)) [
      | inl lost ↦ rw lost (refl, refl, refl)
      | inr answered ↦ rw answered (elim (Bool-cases (exists (collides row) w.tenants)) [
        | inl taken ↦ rw taken (refl, refl, refl)
        | inr free ↦ rw free (elim (Bool-cases known) [
          | inl found ↦ rw found (refl, refl, refl, refl, refl)
          | inr missing ↦ rw missing (refl, refl, refl)
        ])
      ])
    ]

pub create_record-InsertOf :
    (env : Env) (p : CreateParams) (owner : Option ℕ) (w : World)
    → InsertOf (request_of p) owner w (create_record env p owner w)
unfolding create_record create create_with_owner
create_record-InsertOf env p none w = insert_row-InsertOf env (request_of p) none w
create_record-InsertOf env p (some owner) w = insert_row-InsertOf env (request_of p) (some owner) w

-- The reservation: the memory of the project, or nothing.
abbrev pub HoldOf : ℕ → ℕ → ℕ → World → Result (Unit {0}) × World → Type 0
HoldOf id ram a w (ok _, v) =
    (allocated_of id v ≡ some (a + ram))
    × Unique node_key v.nodes
    × (v.tenants ≡ w.tenants)
    × (v.jobs ≡ w.jobs)
HoldOf id ram a w (err e, v) = (v.nodes ≡ w.nodes) × (v.tenants ≡ w.tenants) × (v.jobs ≡ w.jobs)

pub reserve_ram-HoldOf :
    (env : Env) (id ram a : ℕ) (w : World)
    → Unique node_key w.nodes
    → allocated_of id w ≡ some a
    → HoldOf id ram a w (reserve_ram env id ram w)
unfolding reserve_ram exec_nodes
reserve_ram-HoldOf env id ram a w unique now =
    elim (Bool-cases (env.fails (sql node_reserve ∷ w.trace))) [
      | inl lost ↦ rw lost (refl, refl, refl)
      | inr answered ↦ rw answered (elim (Bool-cases (exists (at_node id room) w.nodes)) [
        | inl hit ↦ rw hit (
          reserved_in hit,
          Unique-update node_key (at_node id room) (reserved ram) (λ _. refl) w.nodes unique,
          refl,
          refl,
        )
        | inr miss ↦ rw miss (refl, refl, refl)
      ])
    ]
  where
    room : Node → Bool
    room n = leb (n.allocated_ram_mb + ram) n.total_ram_mb

    reserved_in :
        exists (at_node id room) w.nodes ≡ true
        → allocated_in id (update (at_node id room) (reserved ram) w.nodes) ≡ some (a + ram)
    reserved_in hit = elim (Option-cases (find node_key id w.nodes)) [
      | inl e ↦ unfold allocated_in in ground (arith, exists-keyed node_key id room w.nodes unique)
      | inr (n, e) ↦
          unfold allocated_in in
          ground (
            arith,
            exists-keyed node_key id room w.nodes unique,
            find-update node_key id (at_node id room) (reserved ram) (λ _. refl) w.nodes,
            find-keyed node_key id w.nodes n,
            ==-refl id,
          )
    ]
