-- ===== src/Conformance.antt =====
-- cmd/hacp-conformance-runner/main.go: the runner of the conformance vectors, over the same pipeline.
pub mod Protocol
pub mod Runner
pub mod Preflight
pub mod Inputs
pub mod Handling
pub mod Serving
pub mod Replies
pub mod Steps
pub mod Contexts
pub mod Parts
pub mod Reads
pub mod Authority
pub mod Quiet
pub mod Isolation
pub mod Persistence
pub mod Answers
pub mod Spending
pub mod Uses
