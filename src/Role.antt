-- ===== src/Role.antt =====
-- The queue owner, `QueueRole` of src/istos/queue/role.py: which replica serves the queue, and how
-- long a failed job is held back. Replica ids are `uuid4().hex`, numbers as the job ids are. The
-- steps of election run one at a time, under `_election_lock`.
pub mod Election
pub mod Backoff
pub mod Leader
mod Examples
