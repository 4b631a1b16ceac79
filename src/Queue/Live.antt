-- ===== src/Queue/Live.antt =====
-- The invariant of `QueueStore` that no job is lost (src/istos/queue/store.py): the heaps are
-- popped lazily and hold stale entries, so what has to hold is that every waiting job has an entry
-- under which a claim will find it, and every leased job one under which it is reclaimed.
pub mod Loops
pub mod Defs
pub mod Claims
pub mod Purges
pub mod Run
pub mod Kept
