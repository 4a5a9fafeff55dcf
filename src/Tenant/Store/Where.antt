-- ===== src/Tenant/Store/Where.antt =====
-- The conditions of the statements of internal/tenant/store.go.
use controlplane.Prelude.{ℕ, Bool, true, not}
use controlplane.Table.{keyed}
use controlplane.World.{Tenant, deleted, is_status}

-- `status NOT IN ('deleted')`
abbrev pub is_live : Tenant → Bool
is_live t = not (is_status t.status deleted)

abbrev pub tenant_id : Tenant → ℕ
tenant_id t = t.id

-- `WHERE id = $1 AND q`
abbrev pub at : ℕ → (Tenant → Bool) → Tenant → Bool
at id q = keyed tenant_id id q

abbrev pub anything : Tenant → Bool
anything t = true
