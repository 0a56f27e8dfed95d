-- ===== src/Node.antt =====
-- The node service (pkg/rclone/nodeserver.go), one child for each stage of a request.
pub mod Calls
pub mod Monad
pub mod Keeps
pub mod Outcome
pub mod Workers
pub mod Effects
pub mod Target
pub mod Config
pub mod Mount
pub mod Sync
pub mod History
pub mod Abstract
pub mod RoundTrip
pub mod Volume
pub mod Stats
