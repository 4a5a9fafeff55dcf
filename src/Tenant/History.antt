-- ===== src/Tenant/History.antt =====
-- Histories of the statements of internal/tenant/store.go that write, in any order and for any
-- tenants.
use controlplane.Prelude.{
  ℕ, ◌≡◌, refl, true, false, ◌||◌, ◌&&◌, Option, none, some, List, [], ◌∷◌, arith, Text, String,
  ◌==◌, Bool-cases, subst, inl, inr,
}
use native.Mathlib.Decide.{ℕ_discrete}
use controlplane.Table.{exists, find}
use controlplane.World.{
  World, Env, Tenant, Status, provisioning, active, suspended, error, deleting, deleted, is_status,
  log, sql, tenant_insert, Project, Node,
}
use controlplane.Tenant.Store.{
  CreateTenantRequest, UpdateTenantRequest, create, create_with_owner, insert_row, update_fields,
  set_suspended, set_resumed, set_active, set_error, set_deleting, set_deleted, set_lxc_ip,
  set_health_status, set_dashboard_token, update_billing, tenant_id, at, anything, apply_update,
  collides, new_row, is_deletable,
}
use controlplane.Tenant.Status.{status_in, status_of, status_in-update_other}
use controlplane.Tenant.Moves.{
  Move, suspends, resumes, activates, fails_to_provision, fails_to_delete, deletes_active,
  deletes_suspended, deletes_error, ends, Walk, stay, Walks, Walks-same, Walks-trans, Walks-branch,
  exec-Walks, transition-Walks,
}

-- The methods of the store that write, each with what it is given.
pub data TenantOp : Type 0 where
  create_op : CreateTenantRequest → Option ℕ → TenantOp
  update_op : ℕ → UpdateTenantRequest → TenantOp
  suspended_op resumed_op deleting_op deleted_op : ℕ → TenantOp
  active_op : ℕ → ℕ → TenantOp
  error_op : ℕ → String → TenantOp
  ip_op token_op : ℕ → Text → TenantOp
  health_op : ℕ → String → TenantOp
  billing_op : ℕ → Text → Text → String → TenantOp

unfoldable pub apply : Env → TenantOp → World → World
apply env (create_op req none) w = (create env req w).1
apply env (create_op req (some owner)) w = (create_with_owner env req owner w).1
apply env (update_op id req) w = (update_fields env id req w).1
apply env (suspended_op id) w = (set_suspended env id w).1
apply env (resumed_op id) w = (set_resumed env id w).1
apply env (deleting_op id) w = (set_deleting env id w).1
apply env (deleted_op id) w = (set_deleted env id w).1
apply env (active_op id lxc_id) w = (set_active env id lxc_id w).1
apply env (error_op id message) w = (set_error env id message w).1
apply env (ip_op id ip) w = (set_lxc_ip env id ip w).1
apply env (token_op id token) w = (set_dashboard_token env id token w).1
apply env (health_op id status) w = (set_health_status env id status w).1
apply env (billing_op id customer subscription tier) w =
    (update_billing env id customer subscription tier w).1

unfoldable pub run : Env → List TenantOp → World → World
unfolding apply
run env [] w = w
run env (op ∷ ops) w = run env ops (apply env op w)

pub unseen :
    (row : Tenant) (rows : List Tenant)
    → exists (collides row) rows ≡ false
    → find tenant_id row.id rows ≡ none
unfolding exists find collides
unseen row [] h = refl
unseen row (r ∷ rows) h = ground (arith, unseen row rows)

-- A new row does not hide an old one: the primary key is fresh.
inserted :
    (id : ℕ) (row : Tenant) (rows : List Tenant)
    → exists (collides row) rows ≡ false
    → (s : Status) → status_in id rows ≡ some s
    → status_in id (row ∷ rows) ≡ some s
unfolding status_in find
inserted id row rows h s now = elim (ℕ_discrete row.id id) [
  | yes e ↦ absurd (impossible (subst (λ k. find tenant_id k rows ≡ none) e (unseen row rows h)))
  | no d ↦ ground arith
]
  where
    impossible : find tenant_id id rows ≡ none → ⊥
    impossible e = ground arith

to_suspended : (s : Status) → is_status s active ≡ true → Move s suspended
to_suspended active _ = suspends
to_suspended _ h = cc

to_resumed : (s : Status) → is_status s suspended ≡ true → Move s active
to_resumed suspended _ = resumes
to_resumed _ h = cc

to_active : (s : Status) → is_status s provisioning ≡ true → Move s active
to_active provisioning _ = activates
to_active _ h = cc

to_error : (s : Status) → (is_status s provisioning || is_status s deleting) ≡ true → Move s error
to_error provisioning _ = fails_to_provision
to_error deleting _ = fails_to_delete
to_error _ h = cc

to_deleting : (s : Status) → is_deletable s ≡ true → Move s deleting
to_deleting active _ = deletes_active
to_deleting suspended _ = deletes_suspended
to_deleting error _ = deletes_error
to_deleting _ h = cc

to_deleted : (s : Status) → is_status s deleting ≡ true → Move s deleted
to_deleted deleting _ = ends
to_deleted _ h = cc

insert_row-Walks :
    (id : ℕ) (env : Env) (req : CreateTenantRequest) (owner : Option ℕ) (w : World)
    → Walks id w (insert_row env req owner w).1
unfolding insert_row
insert_row-Walks id env req owner w =
    let w' = log (sql tenant_insert) w in
    let row = new_row req owner (env.fresh_uuid w'.trace) in
    Walks-branch (env.fails w'.trace) w _ _ (Walks-same w w' refl)
      (elim (Bool-cases (exists (collides row) w.tenants)) [
        | inl hit ↦ rw hit (Walks-same w w' refl)
        | inr miss ↦ rw miss (
            Walks-branch
              (exists (λ (p : Project). p.id == req.project_id) w.projects
                && exists (λ (n : Node). n.id == req.node_id) w.nodes)
              w _ _ (record { walk = λ s now. (s, inserted id row w.tenants miss s now, stay) })
              (Walks-same w w' refl))
      ])

update_fields-Walks :
    (id : ℕ) (env : Env) (k : ℕ) (req : UpdateTenantRequest) (w : World)
    → Walks id w (update_fields env k req w).1
unfolding update_fields
update_fields-Walks id env k req w = Walks-same w _ (
    unfold update_fields in
    ground (
      arith,
      status_in-update_other id (at k anything) (apply_update req) (λ _. refl) (λ _. refl)
          w.tenants,
    ))

-- One statement, whether it is carried out or not.
apply-Walks : (id : ℕ) (env : Env) (op : TenantOp) (w : World) → Walks id w (apply env op w)
unfolding apply
apply-Walks id env (create_op req none) w = unfold create in insert_row-Walks id env req none w
apply-Walks id env (create_op req (some owner)) w =
    unfold create_with_owner in insert_row-Walks id env req (some owner) w
apply-Walks id env (update_op k req) w = update_fields-Walks id env k req w
apply-Walks id env (suspended_op k) w =
    unfold set_suspended in
    transition-Walks env _ k _ _ suspended (λ _. refl) (λ _. refl) to_suspended w
apply-Walks id env (resumed_op k) w =
    unfold set_resumed in transition-Walks env _ k _ _ active (λ _. refl) (λ _. refl) to_resumed w
apply-Walks id env (deleting_op k) w =
    unfold set_deleting in
    transition-Walks env _ k _ _ deleting (λ _. refl) (λ _. refl) to_deleting w
apply-Walks id env (deleted_op k) w =
    unfold set_deleted in transition-Walks env _ k _ _ deleted (λ _. refl) (λ _. refl) to_deleted w
apply-Walks id env (active_op k lxc_id) w =
    unfold set_active in transition-Walks env _ k _ _ active (λ _. refl) (λ _. refl) to_active w
apply-Walks id env (error_op k message) w =
    unfold set_error in transition-Walks env _ k _ _ error (λ _. refl) (λ _. refl) to_error w
apply-Walks id env (ip_op k ip) w =
    unfold set_lxc_ip in exec-Walks env _ _ _ _ (λ _. refl) (λ _. refl) w
apply-Walks id env (token_op k token) w =
    unfold set_dashboard_token in exec-Walks env _ _ _ _ (λ _. refl) (λ _. refl) w
apply-Walks id env (health_op k status) w =
    unfold set_health_status in exec-Walks env _ _ _ _ (λ _. refl) (λ _. refl) w
apply-Walks id env (billing_op k customer subscription tier) w =
    unfold update_billing in exec-Walks env _ _ _ _ (λ _. refl) (λ _. refl) w

run-Walks : (id : ℕ) (env : Env) (ops : List TenantOp) (w : World) → Walks id w (run env ops w)
unfolding run
run-Walks id env [] w = Walks-same w w refl
run-Walks id env (op ∷ ops) w =
    Walks-trans (apply-Walks id env op w) (run-Walks id env ops (apply env op w))

-- Whatever statements are sent, and whichever of them fail, a tenant that is there stays there, and
-- its status walks along the arrows of the diagram.
pub run-Walk :
    (id : ℕ) (env : Env) (ops : List TenantOp) (w : World) (s : Status)
    → status_of id w ≡ some s
    → (u : Status) × (status_of id (run env ops w) ≡ some u) × Walk s u
run-Walk id env ops w s now = (run-Walks id env ops w).walk s now
