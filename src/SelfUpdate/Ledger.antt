-- ===== src/SelfUpdate/Ledger.antt =====
-- What `UpdateSupervisor.apply` of src/msos_autobuilder/self_update_supervisor.py reads before it builds.
use msos_autobuilder.Prelude.{
  Bool, true, false, not, ◌||◌, Option, none, some, ◌==◌, Dict, lookup, if◌then◌else◌, Result, ok,
  err, raise_if, ◌>>=◌, ◌>>◌,
}
use msos_autobuilder.Text.{is_empty}
use msos_autobuilder.SelfUpdate.Records.{
  SupervisorError, other_repository, ledger_malformed, commit_bound_elsewhere, evidence_missing,
  UpdateManifest, SupervisorConfig, StagedRelease, UpdateOutcome, already_applied,
  blocked_after_rollback, success, LedgerEntry, malformed_ledger, commits, Store, Collaborators,
  is_digest, read_active_pointer,
}

abbrev pub is_success : UpdateOutcome → Bool
is_success success = true
is_success _ = false

-- What the reads before the cutover come to: an answer from the ledger, or the release to go back to.
pub data Preflight : Type 0 where
  replay : UpdateOutcome → Preflight
  proceed : StagedRelease → Dict LedgerEntry → Preflight

module _ {M : Type 0} (tools : Collaborators M) (config : SupervisorConfig) where
  -- The ledger's entry for the commit, whose report must still be there as it was written.
  unfoldable pub replay_outcome :
      UpdateManifest → LedgerEntry → Store M → Result SupervisorError UpdateOutcome
  unfolding is_digest lookup ◌==◌
  replay_outcome manifest entry store = do
    raise_if (not (entry.manifest_sha256 == manifest.manifest_sha256)) commit_bound_elsewhere
    raise_if (is_empty entry.report_attempt_id || not (is_digest entry.report_sha256))
        evidence_missing
    raise_if
        (elim (lookup entry.report_attempt_id store.reports) [
          | none ↦ true
          | some report ↦ not (tools.report_sha256 report == entry.report_sha256)
        ])
        evidence_missing
    ok (if is_success entry.outcome then already_applied else blocked_after_rollback)

  -- An entry is a record here, so it is never the empty mapping, which the source takes for no entry.
  unfoldable pub consult_ledger :
      UpdateManifest
      → Store M
      → Dict LedgerEntry
      → Option LedgerEntry
      → Result SupervisorError Preflight
  unfolding replay_outcome read_active_pointer
  consult_ledger manifest store entries none = do
    previous ← read_active_pointer tools store
    ok (proceed previous entries)
  consult_ledger manifest store entries (some entry) = do
    outcome ← replay_outcome manifest entry store
    ok (replay outcome)

  unfoldable pub preflight : UpdateManifest → Store M → Result SupervisorError Preflight
  unfolding consult_ledger lookup
  preflight manifest store =
      if not (manifest.repository == config.repository)
        || not (manifest.repo_url == config.repo_url)
      then err other_repository
      else elim store.ledger [
        | malformed_ledger ↦ err ledger_malformed
        | commits entries ↦ consult_ledger manifest store entries (lookup manifest.commit entries)
      ]
