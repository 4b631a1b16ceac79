-- ===== src/Queue/Lifecycle.antt =====
-- The life of one job: its moves, and the proof that no operation of `QueueStore`
-- (src/istos/queue/store.py) moves a job otherwise.
pub mod Moves
pub mod Steps
pub mod Run
pub mod Budget
pub mod Delivered
pub mod Fencing
pub mod Lasting
