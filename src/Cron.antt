-- ===== src/Cron.antt =====
-- Cron schedules: src/istos/queue/cron.py. Calendar has what it uses of datetime, Field the parsing of
-- an expression, Next the search for the next firing time.
pub mod Calendar
pub mod Field
pub mod Next
pub mod Skips
pub mod Turns
pub mod Proper
pub mod Scan
mod Examples
