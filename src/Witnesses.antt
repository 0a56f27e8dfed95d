-- ===== src/Witnesses.antt =====
-- Small concrete inputs on which the theorems are applied.
mod Sample
mod Runs
mod Requests
mod Locks
mod Params
mod Services
mod Metrics
mod Startup
mod Remotes
mod Outcomes
mod Interleaved
