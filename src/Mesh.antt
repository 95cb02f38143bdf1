-- ===== src/Mesh.antt =====
-- internal/mesh: calls between services, with a circuit breaker and retries.
pub mod Breaker
pub mod Retry
mod Tests
