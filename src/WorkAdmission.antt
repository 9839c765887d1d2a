-- ===== src/WorkAdmission.antt =====
-- src/msos_autobuilder/work_admission.py: which work may start, and who owns it. `Paths` has the
-- ownership paths, `Candidates` the classification of existing work, `Claims` the durable claims,
-- `Admission` has `admit_work`; the other children hold the proofs. The digest of an objective is a parameter, and
-- the evidence mappings and messages, which decide nothing, are left out.
pub mod Paths
pub mod Candidates
pub mod Claims
pub mod Admission
pub mod Exclusive
pub mod Releases
pub mod Traces
pub mod Generations
pub mod Tests
