-- ===== src/Commands.antt =====
-- legacy/masson/lib/commands: the commands that work on a normalised configuration, those that
-- manage certificates, and the part of legacy/masson/lib/index.js that makes commands of those of the
-- services.
pub mod Filter
pub mod Clusters
pub mod Exec
pub mod Graph
pub mod Configure
pub mod Discovered
pub mod Pki
pub mod Print
mod Tests
