-- ===== src/Apiserver.antt =====
-- internal/apiserver: the gRPC services of the control plane.
pub mod Methods
pub mod Auth
pub mod Codes
pub mod Services
pub mod Pods
pub mod Deployments
pub mod Nodes
pub mod Namespaces
pub mod Secrets
pub mod NetworkPolicies
pub mod Policies
pub mod Images
pub mod Volumes
pub mod Identity
pub mod Admin
mod Tests
mod RequestTests
