-- ===== src/Provisioner/Stages.antt =====
-- internal/provisioner/provisioner.go: the stages of `doProvision` up to the running container.
use controlplane.Prelude.{ℕ, [], ◌∷◌, Text, codes, ◌==◌, if◌then◌else◌}
use controlplane.World.{
  World, Env, Job, Node, Project, Result, ok, err, unavailable, Action, call, log, next_id,
  clone_container, wait, clone_task, start_task, start_container, configure_network, Network,
  configure_mounts, on_host, make_mount_dirs, set_mount_points,
}
use controlplane.Project.{get_by_id}
use controlplane.Node.Store.{get_by_id as get_node}
use controlplane.Tenant.Store.{get_next_available_ip, set_lxc_ip}
use controlplane.Provisioner.Settings.{Config, is_empty}
use controlplane.Provisioner.Client.{get_client, extract_host}
use controlplane.Provisioner.Steps.{
  Step, pure, ◌>>=◌, ◌>>◌, or_fail, present, best_effort, fail_job, cleanup_and_fail,
}

unfoldable pub load_project : Env → Job → Step Project
load_project env job = do
  found ←
      or_fail (get_by_id env job.project_id)
        (fail_job env job "provisioning failed: project lookup error")
  present found (fail_job env job "provisioning failed: project not found")

unfoldable pub load_node : Env → Job → Step Node
load_node env job = do
  found ←
      or_fail (get_node env job.node_id) (fail_job env job "provisioning failed: node lookup error")
  present found (fail_job env job "provisioning failed: node not found")

unfoldable pub connect : Env → Job → Step (Unit {0})
connect env job =
    or_fail (get_client env job.node_id)
      (fail_job env job "provisioning failed: node connection error")

-- `GetNextID` of the Proxmox client.
unfoldable pub get_next_id : Env → ℕ → Action (Result ℕ)
get_next_id env node w =
    let w' = log (next_id node) w in
    (if env.fails w'.trace then err unavailable else ok (env.fresh_vmid w'.trace), w')

unfoldable pub clone : Env → Job → Project → Step ℕ
clone env job project = do
  vmid ←
      or_fail (get_next_id env job.node_id)
        (fail_job env job "provisioning failed: could not allocate container ID")
  or_fail (call env (clone_container project.template_id vmid job.subdomain))
      (fail_job env job "provisioning failed: clone error")
  or_fail (call env (wait clone_task vmid))
      (fail_job env job "provisioning failed: clone did not complete")
  pure vmid

-- The part behind the first `/`, or "24".
unfoldable pub prefix_length : Text → Text
prefix_length [] = codes "24"
prefix_length (c ∷ s) = let rest = prefix_length s in if c == b'/' then s else rest

unfoldable pub network_of : Config → Project → Text → Network
network_of c project ip = record {
  bridge = c.lxc_bridge;
  ip = ip;
  prefix_len = prefix_length project.network_cidr;
  gateway = project.gateway;
}

-- The address is chosen, written into the container's configuration, and saved; that it could not be
-- saved is logged only.
unfoldable pub attach_network : Env → Config → Job → Project → ℕ → Step Text
attach_network env c job project vmid = do
  ip ←
      or_fail (get_next_available_ip env project.network_cidr)
        (cleanup_and_fail env job vmid "provisioning failed: IP allocation error")
  or_fail (call env (configure_network vmid (network_of c project ip)))
      (cleanup_and_fail env job vmid "provisioning failed: network config error")
  best_effort (set_lxc_ip env job.tenant_id ip)
  pure ip

-- The empty text stands for no address.
unfoldable pub configure_net : Env → Config → Job → Project → ℕ → Step Text
configure_net env c job project vmid =
    if is_empty project.network_cidr then pure [] else attach_network env c job project vmid

abbrev pub mount_error : Env → Job → ℕ → World → World
mount_error env job vmid =
    cleanup_and_fail env job vmid "provisioning failed: mount point config error"

unfoldable pub lift : {A : Type 0} → Result A → Action (Result A)
lift r w = (r, w)

unfoldable pub mount_over_ssh : Env → Config → Job → Node → ℕ → Step (Unit {0})
mount_over_ssh env c job node vmid = do
  host ← or_fail (lift (extract_host env node.proxmox_url)) (mount_error env job vmid)
  or_fail (call env (on_host host (make_mount_dirs c.mount_root vmid))) (mount_error env job vmid)
  or_fail (call env (on_host host (set_mount_points vmid c.mount_root c.app_dir)))
      (mount_error env job vmid)

unfoldable pub mount_storage : Env → Config → Job → Node → ℕ → Step (Unit {0})
mount_storage env c job node vmid =
    if c.ssh_client
    then mount_over_ssh env c job node vmid
    else or_fail (call env (configure_mounts vmid c.mount_root c.app_dir))
        (mount_error env job vmid)

unfoldable pub boot : Env → Job → ℕ → Step (Unit {0})
boot env job vmid = do
  or_fail (call env (start_container vmid))
      (cleanup_and_fail env job vmid "provisioning failed: start error")
  or_fail (call env (wait start_task vmid))
      (cleanup_and_fail env job vmid "provisioning failed: start did not complete")
