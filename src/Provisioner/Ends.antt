-- ===== src/Provisioner/Ends.antt =====
-- Where a deprovisioning leaves its tenant and the memory reserved for it.
use controlplane.Prelude.{
  ℕ, ◌≡◌, refl, ap, true, false, Option, none, some, String, ◌∷◌, Bool-cases, inl, inr,
}
use controlplane.World.{
  World, Env, Status, Error, deleting, Result, ok, err, sql, tenant_set_deleting, log, call,
  delete_container, stop_container, wait, stop_task, delete_task, state_conflict, on_ok,
}
use controlplane.Tenant.Store.{set_deleting, with_status, is_deletable}
use controlplane.Tenant.Status.{transition_refused}
use controlplane.Provisioner.Settings.{Config}
use controlplane.Provisioner.Client.{get_client}
use controlplane.Provisioner.Steps.{run_task}
use controlplane.Provisioner.Teardown.{
  Target, tolerate, remove_container, settle, give_up, set_error_if, tear_down, deprovision,
}
use controlplane.Provisioner.Quiet.{Quiet, Quiet-trans, call-Still}
use controlplane.Provisioner.Outcome.{run_task-Still}
use controlplane.Provisioner.StageRuns.{get_client-Still}
use controlplane.Provisioner.Settling.{
  Stands, CanEnd, EndOf, Stands-Quiet, claim-Stands, set_error-EndOf, settle-EndOf,
}

-- The deletion of the container: quiet, and an error comes with a message.
abbrev RemovalOf : ℕ → World → (Result (Unit {0}) × Option String) × World → Type 0
RemovalOf k w ((ok _, m), v) = Quiet k w v
RemovalOf k w ((err e, some m), v) = Quiet k w v
RemovalOf k w ((err e, none), v) = ⊥

tolerate-RemovalOf :
    (k : ℕ) (env : Env) (message : String) (w v : World) (e : Error)
    → Quiet k w v
    → RemovalOf k w (tolerate env message v e, v)
tolerate-RemovalOf k env message w v e q = elim (Bool-cases (env.not_found v.trace)) [
  | inl gone ↦ rw (RemovalOf, gone) q
  | inr kept ↦ rw (RemovalOf, kept) q
]

remove_container-RemovalOf :
    (k : ℕ) (env : Env) (vmid : ℕ) (w : World) → RemovalOf k w (remove_container env vmid w)
unfolding remove_container
remove_container-RemovalOf k env vmid w =
    start (call env (delete_container vmid) w) ((call-Still env (delete_container vmid)).quiet w)
  where
    waited :
        (v : World)
        → Quiet k w v
        → (r : Result (Unit {0}) × World) → Quiet k v r.1
        → RemovalOf k w (elim r.0 as (λ _. (Result (Unit {0}) × Option String) × World) [
          | err e ↦
              (tolerate env "deprovision failed: container delete did not complete" r.1 e, r.1)
          | ok _ ↦ ((ok tt, none), r.1)
        ])
    waited v q (ok _, u) q' = Quiet-trans q q'
    waited v q (err e, u) q' = tolerate-RemovalOf k env _ w u e (Quiet-trans q q')

    start :
        (r : Result (Unit {0}) × World)
        → Quiet k w r.1
        → RemovalOf k w (elim r.0 as (λ _. (Result (Unit {0}) × Option String) × World) [
          | err e ↦ (tolerate env "deprovision failed: container delete error" r.1 e, r.1)
          | ok _ ↦
              let (waited, w2) = call env (wait delete_task vmid) r.1 in
              elim waited as (λ _. (Result (Unit {0}) × Option String) × World) [
                | err e ↦
                    (tolerate env "deprovision failed: container delete did not complete" w2 e, w2)
                | ok _ ↦ ((ok tt, none), w2)
              ]
        ])
    start (ok _, v) q =
        waited v q (call env (wait delete_task vmid) v)
          ((call-Still env (wait delete_task vmid)).quiet v)
    start (err e, v) q = tolerate-RemovalOf k env _ w v e q

tear_down-EndOf :
    (env : Env) (c : Config) (t : Target) (a : ℕ) (w : World)
    → CanEnd env
    → Stands t deleting a w
    → EndOf t a (tear_down env c t w)
unfolding tear_down
tear_down-EndOf env c t a w can p =
    connected (get_client env t.node_id w) ((get_client-Still env t.node_id).quiet w)
  where
    stopped : World → World
    stopped v = (run_task env (stop_container t.lxc_id) stop_task t.lxc_id v).1

    Gone : Type 0
    Gone = (Result (Unit {0}) × Option String) × World

    removed :
        (v : World)
        → Stands t deleting a v
        → (r : Gone) → RemovalOf t.tenant_id v r
        → EndOf t a (elim r.0.0 as (λ _. Result (Unit {0}) × World) [
          | err e ↦ (err e, set_error_if env t r.0.1 r.1)
          | ok _ ↦ settle env c t r.1
        ])
    removed v h ((ok _, m), u) q = settle-EndOf env c t a u can (Stands-Quiet t deleting a v u q h)
    removed v h ((err e, some m), u) q =
        set_error-EndOf env t a u can m e (Stands-Quiet t deleting a v u q h)
    removed v h ((err e, none), u) q = absurd q

    connected :
        (r : Result (Unit {0}) × World)
        → Quiet t.tenant_id w r.1
        → EndOf t a (elim r.0 as (λ _. Result (Unit {0}) × World) [
          | err e ↦ give_up env t "deprovision failed: node connection error" e r.1
          | ok _ ↦
              let gone = remove_container env t.lxc_id (stopped r.1) in
              elim gone.0.0 as (λ _. Result (Unit {0}) × World) [
                | err e ↦ (err e, set_error_if env t gone.0.1 gone.1)
                | ok _ ↦ settle env c t gone.1
              ]
        ])
    connected (err e, v) q =
        set_error-EndOf env t a v can "deprovision failed: node connection error" e
          (Stands-Quiet t deleting a w v q p)
    connected (ok _, v) q =
        removed (stopped v)
          (Stands-Quiet t deleting a w (stopped v)
            (Quiet-trans q
              ((run_task-Still env (stop_container t.lxc_id) stop_task t.lxc_id).quiet v))
            p)
          (remove_container env t.lxc_id (stopped v))
          (remove_container-RemovalOf t.tenant_id env t.lxc_id (stopped v))

-- Whatever fails outside the database, a deprovisioning of a tenant that may be deleted ends in one of
-- two ways: it returns no error, the tenant is deleted and its memory given back, or it returns an error,
-- the tenant is in error and its memory still reserved. The database carries out the statements, and the
-- keys are unique.
pub deprovision-EndOf :
    (env : Env) (c : Config) (t : Target) (s : Status) (a : ℕ) (w : World)
    → CanEnd env
    → Stands t s a w
    → is_deletable s ≡ true
    → EndOf t a (deprovision env c t w)
unfolding deprovision on_ok
deprovision-EndOf env c t s a w can p from =
    let (claimed, q) = claim-Stands env t a w can s from p in
    proceed (set_deleting env t.tenant_id w) claimed
      (tear_down-EndOf env c t a (set_deleting env t.tenant_id w).1 can q)
  where
    proceed :
        (r : Result (Unit {0}) × World)
        → r.0 ≡ ok tt
        → EndOf t a (tear_down env c t r.1)
        → EndOf t a (elim r.0 as (λ _. Result (Unit {0}) × World) [
          | ok _ ↦ tear_down env c t r.1
          | err e ↦ (err e, r.1)
        ])
    proceed (ok _, v) done h = h
    proceed (err e, v) done h = cc

-- A deprovisioning of a tenant that may not be deleted returns the conflict, and does nothing but the
-- statement that found it, if the database answers.
pub deprovision-conflict :
    (env : Env) (c : Config) (t : Target) (s : Status) (a : ℕ) (w : World)
    → env.fails (sql tenant_set_deleting ∷ w.trace) ≡ false
    → Stands t s a w
    → is_deletable s ≡ false
    → deprovision env c t w ≡ (err state_conflict, log (sql tenant_set_deleting) w)
unfolding deprovision on_ok
deprovision-conflict env c t s a w answers p not_from =
    ap
      (λ r. elim r.0 as (λ _. Result (Unit {0}) × World) [
        | ok _ ↦ tear_down env c t r.1
        | err e ↦ (err e, r.1)
      ])
      refused
  where
    refused : set_deleting env t.tenant_id w ≡ (err state_conflict, log (sql tenant_set_deleting) w)
    refused =
        unfold set_deleting in
        transition_refused env tenant_set_deleting t.tenant_id is_deletable (with_status deleting) s
          deleting (λ _. refl) (λ _. refl) w p.tenants_unique p.status_now answers not_from
