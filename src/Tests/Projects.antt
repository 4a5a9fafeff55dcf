-- ===== src/Tests/Projects.antt =====
-- internal/project at a concrete input.
use controlplane.Prelude.{◌≡◌, refl, true, none}
use controlplane.Table.{exists, count}
use controlplane.World.{World, deleted, sql, tenant_count, project_delete, log}
use controlplane.Tenant.Lifecycle.{Service}
use controlplane.Provisioner.{default_config}
use controlplane.Project.Handler.{refuses, delete_project}
use controlplane.Project.Retired.{delete_project-IsRetired}
use controlplane.Tests.Setup.{calm, with_tenant}

abbrev service : Service
service = record { audited = true; provisioner = default_config }

abbrev gone : World
gone = with_tenant deleted

delete_project-IsRetired_example :
    delete_project calm service none 7 gone
    ≡ (refuses 500, log (sql project_delete) (log (sql tenant_count) gone))
unfolding exists count
delete_project-IsRetired_example =
    delete_project-IsRetired calm service none 7 gone (refl, refl, refl) refl refl
