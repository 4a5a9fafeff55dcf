-- ===== src/Tenant.antt =====
-- internal/tenant.
pub mod Store
pub mod Status
pub mod Subdomain
pub mod Pattern
pub mod Lifecycle
pub mod Handler
pub mod Marking
pub mod Switching
pub mod UserHandler
pub mod Owned
pub mod Quota
pub mod Moves
pub mod History
pub mod Deleting
pub mod Pages
pub mod Reservation
pub mod Creation
pub mod NewRow
pub mod Removal
pub mod Addresses
