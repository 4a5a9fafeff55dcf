-- ===== src/Provisioner/Provision.antt =====
-- internal/provisioner/provisioner.go: `doProvision`, and the goroutines that run it.
use controlplane.Prelude.{ℕ, some, ◌∷◌, Text}
use controlplane.World.{World, Env, Job, Node, Project}
use controlplane.Provisioner.Settings.{Config}
use controlplane.Provisioner.Steps.{Step, pure, ◌>>=◌, ◌>>◌, fail_job}
use controlplane.Provisioner.Stages.{
  load_project, load_node, connect, clone, configure_net, mount_storage, boot,
}
use controlplane.Provisioner.Finish.{
  issue_token, activate, auto_deploy, add_station, publish_route, check_health,
}

-- What the first part of a run hands to the second.
pub record Built : Type 0 where
  pub project : Project
  pub node : Node
  pub vmid : ℕ
  pub ip : Text
  pub token : Text

unfoldable pub always : {A : Type 0} → (World → A × World) → Step A
always m w = let (a, w') = m w in (some a, w')

-- Up to the change of the status.
unfoldable pub build : Env → Config → Job → Step Built
build env c job = do
  project ← load_project env job
  node ← load_node env job
  connect env job
  vmid ← clone env job project
  ip ← configure_net env c job project vmid
  mount_storage env c job node vmid
  boot env job vmid
  token ← always (issue_token env c job node vmid)
  pure (record { project = project; node = node; vmid = vmid; ip = ip; token = token })

-- After it.
unfoldable pub announce : Env → Config → Job → Built → World → World
announce env c job b w = check_health env job b.project b.ip (
    publish_route env c job b.ip
      (add_station env c job (auto_deploy env c job b.node b.vmid b.token w)))

unfoldable pub provision_steps : Env → Config → Job → Step (Unit {0})
provision_steps env c job = do
  b ← build env c job
  activate env job b.vmid
  always (λ w. (tt, announce env c job b w))

unfoldable pub do_provision : Env → Config → Job → World → World
do_provision env c job w = (provision_steps env c job w).1

-- `Provision` starts a goroutine and returns.
unfoldable pub provision : Job → World → World
provision job w = record w { jobs = job ∷ w.jobs }

-- The deferred `recover` of the goroutine.
unfoldable pub recover_panic : Env → Job → World → World
recover_panic env job = fail_job env job "provisioning failed: internal panic"
