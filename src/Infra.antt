-- ===== src/Infra.antt =====
-- The parts of the infrastructure crate that keep their state in memory, and the packages of plugins.
pub mod Circuit
pub mod RateLimit
pub mod Cache
pub mod Package
