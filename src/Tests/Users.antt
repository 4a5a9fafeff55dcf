-- ===== src/Tests/Users.antt =====
-- The handlers of internal/tenant at concrete inputs.
use controlplane.Prelude.{◌≡◌, refl, true, codes, none}
use controlplane.World.{sql, tenant_get, active, suspended, log}
use controlplane.Table.{find}
use controlplane.Tenant.Handler.{refuses, switch, suspension, resumption}
use controlplane.Tenant.Switching.{SwitchOf, switch-suspension, switch-resumption}
use controlplane.Tenant.UserHandler.{user_create, user_get, user_switch, user_delete}
use controlplane.Tenant.Owned.{user_delete-foreign}
use controlplane.Tenant.Quota.{QuotaOf, user_create-QuotaOf}
use controlplane.Tenant.Lifecycle.{Service}
use controlplane.Provisioner.{default_config}
use controlplane.Tests.Setup.{calm, a_tenant, with_tenant}

abbrev plain_service : Service
plain_service = record { audited = true; provisioner = default_config }

switch-suspension_example :
    SwitchOf 3 suspended
      (with_tenant active)
      (switch calm plain_service suspension none 3 (with_tenant active))
switch-suspension_example =
    switch-suspension calm plain_service 3 (with_tenant active) (λ _. refl) (tt, tt)

switch-resumption_example :
    SwitchOf 3 active
      (with_tenant suspended)
      (switch calm plain_service resumption none 3 (with_tenant suspended))
switch-resumption_example =
    switch-resumption calm plain_service 3 (with_tenant suspended) (λ _. refl) (tt, tt)

-- The user 6 has no tenant yet, and 5 has one.
user_create-QuotaOf_example :
    QuotaOf 6
      (with_tenant active)
      (user_create calm plain_service 6 (codes "second") (codes "second") (with_tenant active))
user_create-QuotaOf_example =
    user_create-QuotaOf calm plain_service 6 (codes "second") (codes "second") (with_tenant active)

user_delete-foreign_example :
    (user_get calm 6 3 (with_tenant active)
      ≡ (refuses 404 "tenant not found", log (sql tenant_get) (with_tenant active)))
    × (user_switch calm plain_service suspension 6 3 (with_tenant active)
        ≡ (refuses 404 "tenant not found", log (sql tenant_get) (with_tenant active)))
    × (user_delete calm plain_service 6 3 (with_tenant active)
        ≡ (refuses 404 "tenant not found", log (sql tenant_get) (with_tenant active)))
unfolding find
user_delete-foreign_example =
    user_delete-foreign calm plain_service suspension 6 3 (record a_tenant { status = active })
      (with_tenant active) refl refl refl
