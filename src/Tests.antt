-- ===== src/Tests.antt =====
-- Concrete inputs: runs of the code, and for each result that has hypotheses an input at which they
-- hold.
mod Budgets
mod Boundaries
mod Distribution
mod Requests
mod Decisions
mod Recording
mod Trusting
mod Serving
mod Parsing
mod Proxying
mod Configuring
mod Conforming
mod Running
mod Lifetime
