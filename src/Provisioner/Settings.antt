-- ===== src/Provisioner/Settings.antt =====
-- internal/provisioner/provisioner.go: what the provisioner is configured with. The optional
-- clients are flags; what they do is a call.
use controlplane.Prelude.{ℕ, Bool, true, false, not, [], ◌∷◌, Text, codes, if◌then◌else◌}

pub record Config : Type 0 where
  pub caddy_client : Bool
  pub station_creator : Bool
  pub ssh_client : Bool
  pub caddy_domain : Text
  pub repo_url : Text
  pub repo_branch : Text
  pub lxc_bridge : Text
  pub mount_root : Text
  pub app_dir : Text

abbrev pub max_concurrent_jobs : ℕ
max_concurrent_jobs = 10

unfoldable pub default_config : Config
default_config = record {
  caddy_client = false;
  station_creator = false;
  ssh_client = false;
  caddy_domain = [];
  repo_url = [];
  repo_branch = [];
  lxc_bridge = codes "vmbr0";
  mount_root = codes "/mnt/tenants";
  app_dir = codes "/root/freeRadio";
}

abbrev pub is_empty : Text → Bool
is_empty [] = true
is_empty (c ∷ s) = false

-- `if value != "" { field = value }`
abbrev pub unless_empty : Text → Text → Text
unless_empty value old = if is_empty value then old else value

unfoldable pub with_topology : Text → Text → Text → Config → Config
with_topology bridge mount_root app_dir c = record c {
  lxc_bridge = unless_empty bridge c.lxc_bridge;
  mount_root = unless_empty mount_root c.mount_root;
  app_dir = unless_empty app_dir c.app_dir;
}

unfoldable pub with_free_radio_repo : Text → Text → Config → Config
with_free_radio_repo url branch c = record c { repo_url = url; repo_branch = branch }

unfoldable pub auto_deploy_enabled : Config → Bool
auto_deploy_enabled c = not (is_empty c.repo_url)
