-- ===== src/Controller.antt =====
-- internal/controller: the loops that drive the stored objects towards what deployments ask for.
pub mod Usage
pub mod Schedule
pub mod Deployment
pub mod Capacity
pub mod Autoscaler
mod Tests
