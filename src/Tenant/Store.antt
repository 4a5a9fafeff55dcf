-- ===== src/Tenant/Store.antt =====
-- internal/tenant/store.go: the statements on the table of tenants.
mod Where
mod Select
mod Insert
mod Assign
mod Reach
unfoldable pub use Where.*
unfoldable pub use Select.*
unfoldable pub use Insert.*
unfoldable pub use Assign.*
unfoldable pub use Reach.*
