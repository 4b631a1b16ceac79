-- ===== src/Queue/Order.antt =====
-- The order in which `claim` hands jobs out (src/istos/queue/store.py).
pub mod Sorted
pub mod Steps
pub mod Drain
pub mod Genuine
pub mod Claim
pub mod Serving
