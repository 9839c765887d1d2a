-- ===== src/Lifecycle.antt =====
-- src/msos_autobuilder/lifecycle_evidence.py: the reduction of the evidence of an attempt to a
-- snapshot, the classification of the snapshot, and the update of the heads of the producers.
pub mod Snapshots
pub mod Reduce
pub mod Proven
pub mod Endings
pub mod Necessary
pub mod Sufficient
pub mod Heads
mod Tests
