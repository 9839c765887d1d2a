-- ===== src/Host.antt =====
-- src/msos_autobuilder/persistent_host.py: the queue of jobs in directories, its archives, the feed
-- of approved jobs, the process lock and the host that runs one job at a time.
pub mod Jobs
pub mod Store
pub mod Files
pub mod Tools
pub mod Feed
pub mod Archives
pub mod Process
pub mod Triples
pub mod Stands
pub mod Running
pub mod Kept
pub mod Calls
pub mod Claims
pub mod Seen
mod Tests
