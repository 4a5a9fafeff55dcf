-- ===== src/Provisioner/Teardown.antt =====
-- internal/provisioner/provisioner.go: `Deprovision`, `Suspend` and `Resume`.
use controlplane.Prelude.{ℕ, Option, none, some, not, ◌&&◌, Text, String, ltb, if◌then◌else◌}
use controlplane.World.{
  World, Env, Error, Result, ok, err, Action, on_ok, call, start_container, stop_container,
  delete_container, remove_route, wait, start_task, stop_task, delete_task,
}
use controlplane.Tenant.Store.{set_deleting, set_deleted, set_error}
use controlplane.Node.Store.{release_ram}
use controlplane.Provisioner.Settings.{Config, is_empty}
use controlplane.Provisioner.Client.{get_client}
use controlplane.Provisioner.Steps.{when, run_task}

-- What `Deprovision` is called with.
pub record Target : Type 0 where
  pub tenant_id : ℕ
  pub node_id : ℕ
  pub subdomain : Text
  pub lxc_id : ℕ
  pub ram_mb : ℕ

-- An error of the deletion that does not say "not found" ends it with a message.
abbrev pub tolerate : Env → String → World → Error → Result (Unit {0}) × Option String
tolerate env message w e = if env.not_found w.trace then (ok tt, none) else (err e, some message)

-- `DeleteContainer` and the wait for its task; with an error comes the message to store.
unfoldable pub remove_container : Env → ℕ → Action (Result (Unit {0}) × Option String)
remove_container env vmid w =
    let (r, w1) = call env (delete_container vmid) w in
    elim r [
      | err e ↦ (tolerate env "deprovision failed: container delete error" w1 e, w1)
      | ok _ ↦
          let (waited, w2) = call env (wait delete_task vmid) w1 in
          elim waited [
            | err e ↦
                (tolerate env "deprovision failed: container delete did not complete" w2 e, w2)
            | ok _ ↦ ((ok tt, none), w2)
          ]
    ]

-- The rest, once the container is gone: memory, route and status.
unfoldable pub settle : Env → Config → Target → Action (Result (Unit {0}))
settle env c t w =
    let w1 = when (ltb 0 t.ram_mb) (λ v. (release_ram env t.node_id t.ram_mb v).1) w in
    let w2 =
      when (c.caddy_client && not (is_empty t.subdomain))
        (λ v. (call env (remove_route t.subdomain) v).1) w1 in
    set_deleted env t.tenant_id w2

abbrev pub give_up : Env → Target → String → Error → World → Result (Unit {0}) × World
give_up env t message e w = (err e, (set_error env t.tenant_id message w).1)

abbrev pub set_error_if : Env → Target → Option String → World → World
set_error_if env t none w = w
set_error_if env t (some message) w = (set_error env t.tenant_id message w).1

unfoldable pub tear_down : Env → Config → Target → Action (Result (Unit {0}))
tear_down env c t w =
    let (client, w1) = get_client env t.node_id w in
    elim client [
      | err e ↦ give_up env t "deprovision failed: node connection error" e w1
      | ok _ ↦
          let w2 = (run_task env (stop_container t.lxc_id) stop_task t.lxc_id w1).1 in
          let (gone, w3) = remove_container env t.lxc_id w2 in
          elim gone.0 [ err e ↦ (err e, set_error_if env t gone.1 w3) | ok _ ↦ settle env c t w3 ]
    ]

unfoldable pub deprovision : Env → Config → Target → Action (Result (Unit {0}))
deprovision env c t = on_ok (set_deleting env t.tenant_id) λ _. tear_down env c t

abbrev pub with_client : Env → ℕ → Action (Result (Unit {0})) → Action (Result (Unit {0}))
with_client env node m = on_ok (get_client env node) λ _. m

unfoldable pub suspend : Env → ℕ → ℕ → Action (Result (Unit {0}))
suspend env node vmid = with_client env node (run_task env (stop_container vmid) stop_task vmid)

unfoldable pub resume : Env → ℕ → ℕ → Action (Result (Unit {0}))
resume env node vmid = with_client env node (run_task env (start_container vmid) start_task vmid)
