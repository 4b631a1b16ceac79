-- ===== src/Agent/Multi.antt =====
-- Several agents on one conversation: src/istos/agent/multi.py.
pub mod Registry
pub mod Reach
pub mod Handoff
pub mod Safe
pub mod Shared
mod Examples
