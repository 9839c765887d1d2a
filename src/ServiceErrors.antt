-- ===== src/ServiceErrors.antt =====
-- src/msos_autobuilder/service_error_lifecycle.py: whether a service's error marker is still in force.
-- `Records` has the files, times and identities that the evaluation reads, `Ledgers` the terminal job
-- evidence of each service, `Success` the success evidence and the legacy recovery of the publisher,
-- `Evaluate` has `evaluate_service_error_marker`; the other children hold the proofs. Of the evidence
-- mapping the model keeps `ok`, `state`, `superseded_by` and `error`.
pub mod Records
pub mod Ledgers
pub mod Success
pub mod Evaluate
pub mod Supersession
pub mod Asked
pub mod Ended
pub mod Recovered
pub mod Reading
pub mod Verdicts
pub mod Tests
