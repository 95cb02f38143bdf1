-- ===== src/Agent.antt =====
-- internal/agent: the loop on every node that runs the pods assigned to it.
pub mod Images
pub mod Host
pub mod Runtime
pub mod Loop
pub mod NodePorts
pub mod Files
pub mod Logs
pub mod Build
mod Tests
