-- ===== src/Dashboard.antt =====
-- internal/dashboard: the web console of the control plane.
pub mod Session
pub mod Handlers
pub mod Request
pub mod Deploy
pub mod Metrics
mod Tests
