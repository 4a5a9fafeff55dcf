-- ===== src/World/Calls.antt =====
-- What leaves the process, and what comes back.
use controlplane.Prelude.{ℕ, Bool, Option, List, Text}
use controlplane.World.Model.{Node, Project, Tenant}

-- The database statements, one for each store method.
pub data Statement : Type 0 where
  tenant_list tenant_get tenant_insert tenant_count tenant_update : Statement
  tenant_set_suspended tenant_set_resumed tenant_set_active tenant_set_error : Statement
  tenant_set_deleting tenant_set_deleted tenant_set_lxc_ip tenant_set_health : Statement
  tenant_set_token tenant_update_billing : Statement
  begin_tx advisory_lock used_ips commit_tx : Statement
  node_list node_get node_insert node_update node_delete node_token : Statement
  node_least_loaded node_reserve node_release : Statement
  project_list project_get project_insert project_update project_delete : Statement

-- The tasks that the Proxmox API runs in the background.
pub data Task : Type 0 where
  clone_task start_task stop_task delete_task : Task

-- The shell commands that are sent over SSH.
pub data Command : Type 0 where
  make_mount_dirs : Text → ℕ → Command
  set_mount_points : ℕ → Text → Text → Command
  write_token : Text → Text → Command
  install_docker health_probe : Command
  fetch_repo : Text → Text → Text → Command
  write_env : Text → ℕ → Text → List Text → Command
  bootstrap_certs compose_up : Text → Command

-- The `net0` value of a container: bridge, address, prefix length, gateway.
pub record Network : Type 0 where
  pub bridge : Text
  pub ip : Text
  pub prefix_len : Text
  pub gateway : Text

pub data Call : Type 0 where
  sql : Statement → Call
  next_id : ℕ → Call
  clone_container : ℕ → ℕ → Text → Call
  start_container stop_container delete_container : ℕ → Call
  wait : Task → ℕ → Call
  configure_network : ℕ → Network → Call
  configure_mounts : ℕ → Text → Text → Call
  on_host : Text → Command → Call
  in_container : Text → ℕ → Command → Call
  generate_token : Call
  create_station : ℕ → Text → Text → Option ℕ → Call
  add_route : Text → Text → Call
  remove_route : Text → Call
  probe : Text → ℕ → Text → Call

abbrev pub History : Type 0
History = List Call

-- Errors, as far as the callers tell them apart.
pub data Error : Type 0 where
  unavailable state_conflict no_rows insufficient_capacity unique_violation foreign_key : Error
  ram_below_allocated no_update container_not_found bad_cidr exhausted : Error
  node_missing no_token bad_cipher bad_url : Error

pub data Result (A : Type 0) : Type 0 where
  ok : A → Result A
  err : Error → Result A

-- `netip.Prefix`: an address as a number and the length of the mask.
pub record Prefix : Type 0 where
  pub is4 : Bool
  pub addr : ℕ
  pub bits : ℕ

-- The answers of the database server, the Proxmox API, the SSH hosts, Caddy and the random number
-- generator. The history that each answer reads begins with the call that is answered.
pub record Env : Type 0 where
  -- The call returns an error. A statement that returns one has changed nothing.
  pub fails : History → Bool
  -- The error of a Proxmox call says that the container does not exist.
  pub not_found : History → Bool
  -- The number of the row that a `LIMIT 1` without an order returns, among those that match.
  pub row_of : History → ℕ
  -- A generated UUID, container id, secret.
  pub fresh_uuid : History → ℕ
  pub fresh_vmid : History → ℕ
  pub fresh_token : History → Text
  -- The HTTP status of a health probe.
  pub http_status : History → ℕ
  -- How many polls the clock allows before a deadline; whether the context is done.
  pub polls : ℕ
  pub cancelled : History → Bool
  -- `url.Parse` and `Hostname`; whether the cipher decrypts a token.
  pub url_host : Text → Option Text
  pub decrypts : Text → Bool
  -- `netip.ParsePrefix` and `netip.Addr.String`.
  pub parse_prefix : Text → Option Prefix
  pub show_addr : ℕ → Text

-- A provisioning job that was started as a goroutine.
pub record Job : Type 0 where
  pub tenant_id : ℕ
  pub node_id : ℕ
  pub project_id : ℕ
  pub subdomain : Text
  pub ram_mb : ℕ

pub data Deed : Type 0 where
  create_deed delete_deed suspend_deed resume_deed update_deed : Deed

pub record AuditEntry : Type 0 where
  pub deed : Deed
  pub entity_id : ℕ
  pub user_id : Option ℕ

pub record World : Type 0 where
  pub nodes : List Node
  pub projects : List Project
  pub tenants : List Tenant
  pub clients : List ℕ
  pub jobs : List Job
  pub audits : List AuditEntry
  pub trace : History
