-- ===== src/Affinity.antt =====
-- legacy/masson/lib/config/affinities.js: which nodes a service is placed on. An affinity is an
-- object with a `type`, a `match` and `values`; `Normalize` models `handlers.*.normalize`,
-- `Resolve` models `handlers.*.resolve`, and `Match` the functions `match.*` and `any` below them.
pub mod Match
pub mod Normalize
pub mod Resolve
pub mod Policy
mod Tests
