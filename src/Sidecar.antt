-- ===== src/Sidecar.antt =====
-- cmd/sidecar: the configuration, the runtime that it makes, and the local HTTP endpoints.
pub mod Config
pub mod Transport
pub mod Runtime
pub mod Endpoints
pub mod Revoking
pub mod Closed
pub mod Main
pub mod Routes
pub mod Dispatch
pub mod Lifetime
pub mod Fresh
pub mod Logging
pub mod Replaying
pub mod Forwarding
pub mod Lasting
pub mod Feeding
pub mod Distributing
pub mod Modes
pub mod Starting
