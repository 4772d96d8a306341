-- ===== src/Storage.antt =====
-- internal/storage: the SQLite tables and the repositories over them.
mod Sql
mod Schema
mod Rows
mod Events
mod Scenarios
mod ReplayRuns
mod FaultRules
mod Snapshots
mod Services
pub mod Tables
pub mod Order
pub mod Steps
pub mod Keys
unfoldable pub use Sql.*
unfoldable pub use Schema.*
unfoldable pub use Rows.*
unfoldable pub use Events.*
unfoldable pub use Scenarios.*
unfoldable pub use ReplayRuns.*
unfoldable pub use FaultRules.*
unfoldable pub use Snapshots.*
unfoldable pub use Services.*
