-- ===== src/Queue.antt =====
-- The work queue of src/istos/queue.
pub mod Job
pub mod Disk
pub mod State
pub mod Store
pub mod Upkeep
pub mod Chord
pub mod Schedule
pub mod Live
pub mod Lifecycle
pub mod Order
pub mod Codec
mod Examples
