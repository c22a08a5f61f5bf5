-- ===== src/Worker.antt =====
-- src/internal/worker: the workers that the gateway routes to, and the registry that keeps them.
pub mod State
pub mod Models
pub mod Registry
pub mod Lifecycle
mod Tests
