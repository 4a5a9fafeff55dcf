-- ===== src/Tenant/Store/Assign.antt =====
-- internal/tenant/store.go: the transitions of the status, and the columns set by one statement.
use controlplane.Prelude.{ℕ, Bool, ◌||◌, none, some, Text, String}
use controlplane.World.{
  Env, Tenant, Status, provisioning, active, suspended, error, deleting, deleted, is_status,
  state_conflict, no_rows, Result, ok, err, tenant_set_suspended, tenant_set_resumed,
  tenant_set_active, tenant_set_error, tenant_set_deleting, tenant_set_deleted, tenant_set_lxc_ip,
  tenant_set_health, tenant_set_token, tenant_update_billing, Action, exec_tenants, Statement,
}
use controlplane.Tenant.Store.Where.{at, anything}

-- `UPDATE tenants SET status = to, … WHERE id = $1 AND status IN (from)`; no row is a conflict.
abbrev pub transition :
    Env → Statement → ℕ → (Status → Bool) → (Tenant → Tenant) → Action (Result (Unit {0}))
transition env statement id from change =
    exec_tenants env statement (at id (λ t. from t.status)) change (err state_conflict)

abbrev pub with_status : Status → Tenant → Tenant
with_status s t = record t { status = s }

unfoldable pub set_suspended : Env → ℕ → Action (Result (Unit {0}))
unfolding exec_tenants
set_suspended env id =
    transition env tenant_set_suspended id (λ s. is_status s active) (with_status suspended)

unfoldable pub set_resumed : Env → ℕ → Action (Result (Unit {0}))
unfolding exec_tenants
set_resumed env id =
    transition env tenant_set_resumed id (λ s. is_status s suspended) (with_status active)

abbrev pub activated : ℕ → Tenant → Tenant
activated lxc_id t = record t { status = active; lxc_id = some lxc_id; error_message = none }

unfoldable pub set_active : Env → ℕ → ℕ → Action (Result (Unit {0}))
unfolding exec_tenants
set_active env id lxc_id =
    transition env tenant_set_active id (λ s. is_status s provisioning) (activated lxc_id)

abbrev pub errored : String → Tenant → Tenant
errored message t = record t { status = error; error_message = some message }

unfoldable pub set_error : Env → ℕ → String → Action (Result (Unit {0}))
unfolding exec_tenants
set_error env id message =
    transition env tenant_set_error id (λ s. is_status s provisioning || is_status s deleting)
      (errored message)

abbrev pub is_deletable : Status → Bool
is_deletable s = is_status s active || is_status s error || is_status s suspended

unfoldable pub set_deleting : Env → ℕ → Action (Result (Unit {0}))
unfolding exec_tenants
set_deleting env id = transition env tenant_set_deleting id is_deletable (with_status deleting)

unfoldable pub set_deleted : Env → ℕ → Action (Result (Unit {0}))
unfolding exec_tenants
set_deleted env id =
    transition env tenant_set_deleted id (λ s. is_status s deleting) (with_status deleted)

-- `UPDATE tenants SET … WHERE id = $1`, whatever the status.
abbrev pub assign :
    Env → Statement → ℕ → (Tenant → Tenant) → Result (Unit {0}) → Action (Result (Unit {0}))
assign env statement id change zero = exec_tenants env statement (at id anything) change zero

unfoldable pub set_lxc_ip : Env → ℕ → Text → Action (Result (Unit {0}))
unfolding exec_tenants
set_lxc_ip env id ip =
    assign env tenant_set_lxc_ip id (λ t. record t { lxc_ip = some ip }) (err no_rows)

-- The number of affected rows is not looked at.
unfoldable pub set_health_status : Env → ℕ → String → Action (Result (Unit {0}))
unfolding exec_tenants
set_health_status env id status =
    assign env tenant_set_health id (λ t. record t { health_status = status }) (ok tt)

unfoldable pub set_dashboard_token : Env → ℕ → Text → Action (Result (Unit {0}))
unfolding exec_tenants
set_dashboard_token env id token =
    assign env tenant_set_token id (λ t. record t { dashboard_token = some token }) (err no_rows)

abbrev pub billed : Text → Text → String → Tenant → Tenant
billed customer subscription tier t = record t {
  stripe_customer_id = some customer;
  stripe_subscription_id = some subscription;
  tier = tier;
}

unfoldable pub update_billing : Env → ℕ → Text → Text → String → Action (Result (Unit {0}))
unfolding exec_tenants
update_billing env id customer subscription tier =
    assign env tenant_update_billing id (billed customer subscription tier) (err no_rows)
