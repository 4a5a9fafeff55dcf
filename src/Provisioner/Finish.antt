-- ===== src/Provisioner/Finish.antt =====
-- internal/provisioner/provisioner.go: the stages of `doProvision` from the running container on.
-- All but the change of the status are best effort.
use controlplane.Prelude.{ℕ, Option, not, ◌&&◌, none, some, [], ◌∷◌, Text, if◌then◌else◌}
use controlplane.World.{
  World, Env, Job, Node, Project, Tenant, Result, ok, err, Action, call, in_container, write_token,
  create_station, add_route, probe,
}
use controlplane.Tenant.Store.{get_by_id, set_dashboard_token, set_active, set_health_status}
use controlplane.Provisioner.Settings.{Config, is_empty, auto_deploy_enabled}
use controlplane.Provisioner.Client.{extract_host}
use controlplane.Provisioner.Deploy.{new_token, deploy_free_radio, wait_for_health}
use controlplane.Provisioner.Steps.{Step, or_fail, when, cleanup_and_fail}

abbrev pub ok_or : {A : Type 0} → Result A → A → A
ok_or (ok a) d = a
ok_or (err e) d = d

-- What is done with the host of the node's URL, if it has one.
abbrev pub with_host : Env → Node → (Text → World → World) → World → World
with_host env node f w = elim (extract_host env node.proxmox_url) [ err e ↦ w | ok host ↦ f host w ]

-- The legacy path: the token is written into the container, if there is no deploy.
unfoldable pub write_token_legacy : Env → Config → Node → ℕ → Text → World → World
write_token_legacy env c node vmid token =
    when (c.ssh_client && not (is_empty token) && not (auto_deploy_enabled c)) (
      with_host env node
        λ host w. (call env (in_container host vmid (write_token c.app_dir token)) w).1)

-- The token of the dashboard; the empty text if none could be generated.
unfoldable pub issue_token : Env → Config → Job → Node → ℕ → Action Text
issue_token env c job node vmid w =
    let (r, w1) = new_token env w in
    let token = ok_or r [] in
    let w2 = write_token_legacy env c node vmid token w1 in
    (token, when (not (is_empty token)) (λ v. (set_dashboard_token env job.tenant_id token v).1) w2)

unfoldable pub activate : Env → Job → ℕ → Step (Unit {0})
activate env job vmid =
    or_fail (set_active env job.tenant_id vmid)
      (cleanup_and_fail env job vmid "provisioning failed: could not update status")

unfoldable pub auto_deploy : Env → Config → Job → Node → ℕ → Text → World → World
auto_deploy env c job node vmid token =
    when (c.ssh_client && auto_deploy_enabled c)
      (with_host env node λ host w. (deploy_free_radio env c host vmid job.tenant_id token w).1)

-- The record of the station is made by internal/station/creator.go.
-- The name and the owner are those of the row; without the row there is no station.
abbrev pub station_of : Env → Job → Result (Option Tenant) → World → World
station_of env job (ok (some t)) w =
    (call env (create_station job.tenant_id t.name job.subdomain t.owner_id) w).1
station_of env job (ok none) w = w
station_of env job (err e) w = w

unfoldable pub add_station : Env → Config → Job → World → World
add_station env c job =
    when c.station_creator
      λ w. let (found, w1) = get_by_id env job.tenant_id w in station_of env job found w1

unfoldable pub publish_route : Env → Config → Job → Text → World → World
publish_route env c job ip =
    when (c.caddy_client && not (is_empty ip)) λ w. (call env (add_route job.subdomain ip) w).1

abbrev pub check_port : Env → Job → Project → Text → ℕ → World → World
check_port env job project ip port w =
    let (healthy, w1) = wait_for_health env env.polls (probe ip port project.health_path) w in
    (set_health_status env job.tenant_id (if healthy then "healthy" else "unhealthy") w1).1

unfoldable pub check_health : Env → Job → Project → Text → World → World
check_health env job project ip =
    when (not (is_empty ip) && not (is_empty project.health_path))
      λ w. elim project.ports [ [] ↦ w | port ∷ _ ↦ check_port env job project ip port w ]
