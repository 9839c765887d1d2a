-- ===== src/SelfUpdate.antt =====
-- src/msos_autobuilder/self_update_supervisor.py: the transaction that replaces the running release by an
-- approved one, and goes back when the new one is not healthy. `Records` has the state and the
-- collaborators that `UpdateSupervisor` is built with, `Lock` the update lock, `Cutover` the switch
-- and the way back, `Ledger` the reads before them, `Apply` the transaction;
-- the other children hold the proofs. Releases are built, tasks switched and health awaited by the
-- collaborators, which are parameters. An attempt's identity is a fresh one, so that writing its
-- report and notification does not fail; a manifest is given parsed.
pub mod Records
pub mod Lock
pub mod Cutover
pub mod Ledger
pub mod Apply
pub mod Pointers
pub mod LedgerAnswers
pub mod Outcomes
pub mod Replay
pub mod Exclusion
pub mod Tests
