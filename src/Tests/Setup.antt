-- ===== src/Tests/Setup.antt =====
-- A small world for the examples: one node, one project, one tenant.
use controlplane.Prelude.{true, false, none, some, [], ◌∷◌, codes, length}
use controlplane.World.{
  Env, World, Node, Project, Tenant, Job, Status, provisioning, online, Prefix,
}

abbrev pub subnet : Prefix
subnet = record { is4 = true; addr = 2886737920; bits = 29 }

-- Nothing fails.
abbrev pub calm : Env
calm = record {
  fails = λ _. false;
  not_found = λ _. false;
  row_of = λ _. 0;
  fresh_uuid = length;
  fresh_vmid = λ _. 101;
  fresh_token = λ _. codes "secret";
  http_status = λ _. 200;
  polls = 2;
  cancelled = λ _. false;
  url_host = λ url. some url;
  decrypts = λ _. true;
  parse_prefix = λ _. some subnet;
  show_addr = λ a. a ∷ [];
}

-- Everything fails.
abbrev pub dark : Env
dark = record calm { fails = λ _. true }

abbrev pub a_node : Node
a_node = record {
  id = 1;
  name = codes "node-1";
  tailscale_ip = codes "100.64.0.1";
  proxmox_url = codes "https://node-1:8006";
  api_token_encrypted = codes "token";
  total_ram_mb = 4096;
  allocated_ram_mb = 1024;
  status = online;
}

abbrev pub a_project : Project
a_project = record {
  id = 7;
  name = codes "radio";
  template_id = 9000;
  ports = 8080 ∷ [];
  stripe_price_id = none;
  health_path = codes "/health";
  ram_mb = 512;
  network_cidr = codes "172.16.0.0/29";
  gateway = codes "172.16.0.1";
}

abbrev pub a_tenant : Tenant
a_tenant = record {
  id = 3;
  name = codes "first";
  project_id = 7;
  node_id = 1;
  lxc_id = none;
  lxc_ip = none;
  subdomain = codes "first";
  status = provisioning;
  error_message = none;
  owner_id = some 5;
  stripe_subscription_id = none;
  stripe_customer_id = none;
  tier = "free";
  dashboard_token = none;
  health_status = "unknown";
}

abbrev pub with_tenant : Status → World
with_tenant s = record {
  nodes = a_node ∷ [];
  projects = a_project ∷ [];
  tenants = record a_tenant { status = s } ∷ [];
  clients = [];
  jobs = [];
  audits = [];
  trace = [];
}

abbrev pub a_job : Job
a_job = record {
  tenant_id = 3;
  node_id = 1;
  project_id = 7;
  subdomain = codes "first";
  ram_mb = 512;
}
