-- ===== src/World.antt =====
-- The state that the components share: the rows of the database, the proxmox clients that are
-- cached, the jobs that were started, the audit entries, and the history of the calls that left the
-- process. `Env` answers these calls; an answer may depend on the whole history.
mod Model
mod Calls
mod Actions
pub use Model.*
pub use Calls.*
unfoldable pub use Actions.{on_ok, log, call, query, exec_tenants, exec_nodes}
pub use Actions.{Action, pure, ◌>>=◌, ◌>>◌}
