-- ===== src/Normalize.antt =====
-- legacy/masson/lib/config/normalize.js, by its passes over the configuration.
pub mod Each
pub mod Discover
pub mod Services
pub mod Deps
pub mod Nodes
pub mod Graph
pub mod Local
pub mod Placement
pub mod Ordering
pub mod Inject
pub mod Configure
pub mod Run
pub mod Whole
mod Tests
