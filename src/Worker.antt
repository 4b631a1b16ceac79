-- ===== src/Worker.antt =====
-- Workers of queues and their workflows: src/istos/queue/worker.py, with the handlers of
-- src/istos/queue/role.py that answer them and the calls of src/istos/app/queues.py in between.
pub mod Owner
pub mod Flow
pub mod Mesh
mod Examples
