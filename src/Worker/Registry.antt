-- ===== src/Worker/Registry.antt =====
-- src/internal/worker/registry.go: the registry's state, its operations and what they keep.
pub mod Core
pub mod Admin
pub mod Runtime
pub mod Views
pub mod Polling
pub mod Identity
pub mod Fleet
