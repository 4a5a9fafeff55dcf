-- ===== src/World/Model.antt =====
-- The rows of the tables: internal/tenant/model.go, internal/node/model.go,
-- internal/project/model.go and the CHECK constraints of internal/database/migrations. A UUID is a
-- number. The columns created_at, updated_at and health_checked_at are left out; the tables are
-- kept newest first, the order that every `ORDER BY created_at DESC` asks for.
use controlplane.Prelude.{ℕ, Bool, true, false, Option, List, Text, String}

-- The values that `chk_tenants_status` admits.
pub data Status : Type 0 where
  provisioning active suspended error deleting deleted : Status

pub Status-discrete : Discrete Status
Status-discrete = hlevel

-- The values that `chk_nodes_status` admits; `active` is called `online`.
pub data NodeStatus : Type 0 where
  online maintenance offline : NodeStatus

pub record Node : Type 0 where
  pub id : ℕ
  pub name : Text
  pub tailscale_ip : Text
  pub proxmox_url : Text
  pub api_token_encrypted : Text
  pub total_ram_mb : ℕ
  pub allocated_ram_mb : ℕ
  pub status : NodeStatus

pub record Project : Type 0 where
  pub id : ℕ
  pub name : Text
  pub template_id : ℕ
  pub ports : List ℕ
  pub stripe_price_id : Option Text
  pub health_path : Text
  pub ram_mb : ℕ
  pub network_cidr : Text
  pub gateway : Text

pub record Tenant : Type 0 where
  pub id : ℕ
  pub name : Text
  pub project_id : ℕ
  pub node_id : ℕ
  pub lxc_id : Option ℕ
  pub lxc_ip : Option Text
  pub subdomain : Text
  pub status : Status
  pub error_message : Option String
  pub owner_id : Option ℕ
  pub stripe_subscription_id : Option Text
  pub stripe_customer_id : Option Text
  pub tier : String
  pub dashboard_token : Option Text
  pub health_status : String

abbrev pub is_status : Status → Status → Bool
is_status provisioning provisioning = true
is_status active active = true
is_status suspended suspended = true
is_status error error = true
is_status deleting deleting = true
is_status deleted deleted = true
is_status _ _ = false

abbrev pub is_online : NodeStatus → Bool
is_online online = true
is_online _ = false
