-- ===== src/Agent.antt =====
-- The agent loop of src/istos/agent/loop.py: its messages, its events, the trimming and the
-- recovery of a conversation, and the run of a turn against a model, tools and a gate.
pub mod Messages
pub mod Trim
pub mod Loop
pub mod Valid
pub mod Gated
pub mod Ends
pub mod History
pub mod Drive
pub mod Multi
pub mod Governed
mod Examples
