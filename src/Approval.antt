-- ===== src/Approval.antt =====
-- The approval gate of src/istos/agent/approval.py: requests for a human decision, their waiters,
-- and the storage that they are written through to. A call is one step where it holds the lock or
-- does not wait; `wait` is its start and its end, between which other calls run.
pub mod Request
pub mod Storage
pub mod Gate
pub mod Schedule
pub mod Final
pub mod Clearance
pub mod Outcome
pub mod Closed
mod Examples
