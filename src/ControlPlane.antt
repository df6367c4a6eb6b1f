-- ===== src/ControlPlane.antt =====
-- internal/controlplane: distributed revocation state.
pub mod Adapter
pub mod State
pub mod Journal
pub mod Subscriber
pub mod Server
