-- ===== src/Queue.antt =====
-- queue
pub mod Models
pub mod Directory
pub mod Dedup
pub mod State
pub mod Hash
pub mod Enqueue
pub mod Claim
pub mod Mark
pub mod Recovery
pub mod Cleanup
pub mod Accounted
pub mod History
