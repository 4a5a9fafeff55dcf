-- ===== src/Provisioner.antt =====
-- internal/provisioner/provisioner.go: the life of a tenant's container.
mod Settings
mod Client
mod Steps
mod Deploy
mod Stages
mod Finish
mod Provision
mod Teardown
pub mod Quiet
mod Outcome
mod StageRuns
mod FinishRuns
pub mod Settles
pub mod Settling
pub mod Ends
pub mod Stuck
pub mod Containers
unfoldable pub use Settings.*
unfoldable pub use Client.*
unfoldable pub use Steps.*
unfoldable pub use Deploy.*
unfoldable pub use Stages.*
unfoldable pub use Finish.*
unfoldable pub use Provision.*
unfoldable pub use Teardown.*
