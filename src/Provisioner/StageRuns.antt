-- ===== src/Provisioner/StageRuns.antt =====
-- Each stage up to the change of the status goes on quietly, or returns through `fail_job`.
use controlplane.Prelude.{ℕ, refl, Option, none, some, [], ◌∷◌, Text, inl, inr, Bool-cases}
use controlplane.World.{World, Env, Job, Node, Project, Prefix, Result, ok, err, Action, bad_cidr}
use controlplane.Project.{get_by_id}
use controlplane.Node.Store.{get_by_id as get_node, get_encrypted_token_by_id}
use controlplane.Tenant.Store.{get_next_available_ip}
use controlplane.Ipalloc.{commit, next, allocate, if_ipv4}
use controlplane.Provisioner.Settings.{Config}
use controlplane.Provisioner.Client.{is_cached, make_client, fetch_client, get_client}
use controlplane.Provisioner.Deploy.{new_token}
use controlplane.Provisioner.Stages.{
  load_project, load_node, connect, get_next_id, clone, attach_network, configure_net, lift,
  mount_over_ssh, mount_storage, boot,
}
use controlplane.Provisioner.Quiet.{
  Still, answer-Still, Quiet-refl, Quiet-same, call-Still, query-Still, on_ok-Still,
  set_lxc_ip-Still,
}
use controlplane.Provisioner.Outcome.{
  Runs, pure-Runs, or_fail-Runs, cleanup-Fails, if-Runs, run_rules,
}

module _ {t : ℕ} (env : Env) where
  pub get_node-Still : (id : ℕ) → Still t (get_node env id)
  unfolding get_node
  get_node-Still id = record { quiet = λ w. Quiet-same _ _ refl refl }

  pub get_token-Still : (id : ℕ) → Still t (get_encrypted_token_by_id env id)
  unfolding get_encrypted_token_by_id
  get_token-Still id = record { quiet = λ w. Quiet-same _ _ refl refl }

  pub get_project-Still : (id : ℕ) → Still t (get_by_id env id)
  unfolding get_by_id
  get_project-Still id = record { quiet = λ w. Quiet-same _ _ refl refl }

  make_client-Still : (id : ℕ) (token : Text) → Still t (make_client env id token)
  make_client-Still id [] = answer-Still _
  make_client-Still id (c ∷ s) = record {
    quiet = λ w. elim (Bool-cases (env.decrypts (c ∷ s))) [
      | inl good ↦ rw good (Quiet-same _ _ refl refl)
      | inr bad ↦ rw bad (Quiet-refl w)
    ];
  }

  fetch_client-Still : (id : ℕ) → Still t (fetch_client env id)
  unfolding fetch_client
  fetch_client-Still id = on_ok-Still _ _ (get_node-Still id) (elim [
    | none ↦ answer-Still _
    | some n ↦ on_ok-Still _ _ (get_token-Still id) (make_client-Still id)
  ])

  pub get_client-Still : (id : ℕ) → Still t (get_client env id)
  unfolding get_client
  get_client-Still id = record {
    quiet = λ w. elim (Bool-cases (is_cached id w)) [
      | inl cached ↦ rw cached (Quiet-refl w)
      | inr missing ↦ rw missing ((fetch_client-Still id).quiet w)
    ];
  }

  if_ipv4-Still :
      (o : Option Prefix) (m : Action (Result Text))
      → Still t m
      → Still t (λ w. if_ipv4 {A = Result Text × World} o (λ _. m w) (err bad_cidr, w))
  if_ipv4-Still none m still = answer-Still _
  if_ipv4-Still (some p) m still = record {
    quiet = λ w. elim (Bool-cases p.is4) [
      | inl four ↦ rw four (still.quiet w)
      | inr six ↦ rw six (Quiet-refl w)
    ];
  }

  commit-Still : (r : Result Text) → Still t (commit env r)
  unfolding commit
  commit-Still (err e) = answer-Still _
  commit-Still (ok addr) = on_ok-Still _ _ (query-Still env _ _) λ _. answer-Still _

  pub get_next_available_ip-Still : (cidr : Text) → Still t (get_next_available_ip env cidr)
  unfolding get_next_available_ip allocate
  get_next_available_ip-Still cidr = if_ipv4-Still (env.parse_prefix cidr) _ (
      on_ok-Still _ _ (query-Still env _ _) λ _.
        on_ok-Still _ _ (query-Still env _ _)
          λ _. on_ok-Still _ _ (query-Still env _ _) λ used. commit-Still (next env cidr used))

  pub new_token-Still : Still t (new_token env)
  unfolding new_token
  new_token-Still = record { quiet = λ w. Quiet-same _ _ refl refl }

  pub get_next_id-Still : (id : ℕ) → Still t (get_next_id env id)
  unfolding get_next_id
  get_next_id-Still id = record { quiet = λ w. Quiet-same _ _ refl refl }

  pub lift-Still : {A : Type 0} (r : Result A) → Still t (lift r)
  unfolding lift
  lift-Still r = answer-Still r

ruleset stills = (
  get_node-Still, get_project-Still, get_client-Still, get_next_available_ip-Still,
  get_next_id-Still, lift-Still, call-Still, set_lxc_ip-Still, run_rules,
)

module _ (env : Env) (c : Config) (job : Job) where
  pub load_project-Runs : Runs env job (load_project env job)
  unfolding load_project
  load_project-Runs = search stills

  pub load_node-Runs : Runs env job (load_node env job)
  unfolding load_node
  load_node-Runs = search stills

  pub connect-Runs : Runs env job (connect env job)
  unfolding connect
  connect-Runs = search stills

  pub clone-Runs : (p : Project) → Runs env job (clone env job p)
  unfolding clone
  clone-Runs p = search stills depth 7

  attach_network-Runs : (p : Project) (vmid : ℕ) → Runs env job (attach_network env c job p vmid)
  unfolding attach_network
  attach_network-Runs p vmid = search stills depth 8

  pub configure_net-Runs : (p : Project) (vmid : ℕ) → Runs env job (configure_net env c job p vmid)
  unfolding configure_net
  configure_net-Runs p vmid = if-Runs _ _ _ (pure-Runs []) (attach_network-Runs p vmid)

  mount_over_ssh-Runs : (n : Node) (vmid : ℕ) → Runs env job (mount_over_ssh env c job n vmid)
  unfolding mount_over_ssh
  mount_over_ssh-Runs n vmid = search stills depth 8

  pub mount_storage-Runs : (n : Node) (vmid : ℕ) → Runs env job (mount_storage env c job n vmid)
  unfolding mount_storage
  mount_storage-Runs n vmid =
      if-Runs _ _ _ (mount_over_ssh-Runs n vmid)
        (or_fail-Runs _ _ (call-Still env _) (cleanup-Fails vmid _))

  pub boot-Runs : (vmid : ℕ) → Runs env job (boot env job vmid)
  unfolding boot
  boot-Runs vmid = search stills depth 7
