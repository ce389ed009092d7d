-- ===== src/Core.antt =====
-- src/resident/core.rs: `LeaderCore`, the deterministic control plane of a resident leader. The
-- state and the operations are in Session and Ops; the proofs are in the other modules.
pub mod Names
pub mod Session
pub mod Ops
pub mod Attach
pub mod Commit
pub mod Links
pub mod Lookup
pub mod Decisions
pub mod Errors
pub mod Requests
pub mod Fencing
pub mod Steps
pub mod Equations
pub mod Sound
pub mod Recovery
pub mod Logged
pub mod Steady
pub mod Window
pub mod Driven
pub mod Present
pub mod Disconnect
pub mod Naming
