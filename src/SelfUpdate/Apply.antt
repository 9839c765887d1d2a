-- ===== src/SelfUpdate/Apply.antt =====
-- `UpdateSupervisor.apply` of src/msos_autobuilder/self_update_supervisor.py.
use msos_autobuilder.Prelude.{
  ℕ, Bool, Option, none, some, List, [], ◌∷◌, ◌++◌, Text, codes, Dict, insert, Result, ok, err,
}
use msos_autobuilder.SelfUpdate.Records.{
  SupervisorError, raised, manifest_invalid, UpdateManifest, ManagedTask, SupervisorConfig,
  StagedRelease, started, rejected_manifest, success, rolled_back, rollback_failed,
  failed_before_cutover, UpdateReport, LedgerEntry, commits, Store, Collaborators,
  release_managed_tasks,
}
use msos_autobuilder.SelfUpdate.Lock.{acquire_lock}
use msos_autobuilder.SelfUpdate.Cutover.{names, restore_previous_release, cutover}
use msos_autobuilder.SelfUpdate.Ledger.{Preflight, replay, proceed, preflight}

-- A report and its notification, each in a new file.
unfoldable pub write_evidence : {M : Type 0} → UpdateReport → Store M → Store M
write_evidence report store = record store {
  reports = insert report.attempt_id report store.reports;
  notifications = insert report.attempt_id report.outcome store.notifications;
}

abbrev pub new_report : Text → UpdateManifest → UpdateReport
new_report attempt_id manifest = record {
  attempt_id = attempt_id;
  release_id = manifest.release_id;
  requested_commit = manifest.commit;
  manifest_sha256 = manifest.manifest_sha256;
  previous = none;
  staged_release_path = none;
  cutover = none;
  rollback = none;
  outcome = started;
  errors = [];
}

module _ {M : Type 0} (tools : Collaborators M) (config : SupervisorConfig) where
  -- The outer `except`: nothing was switched, and the error is reported.
  unfoldable pub fail_before_cutover :
      SupervisorError → UpdateReport → Store M → UpdateReport × Store M
  unfolding write_evidence
  fail_before_cutover e report store =
      let failed : UpdateReport = record report {
        outcome = failed_before_cutover;
        errors = report.errors ++ e ∷ [];
      } in
      (failed, write_evidence failed store)

  -- The report, the notification and the ledger entry of a performed cutover.
  unfoldable pub record_update :
      UpdateManifest → Dict LedgerEntry → UpdateReport → Store M → UpdateReport × Store M
  unfolding write_evidence insert
  record_update manifest entries report store =
      let entry : LedgerEntry = record {
        manifest_sha256 = manifest.manifest_sha256;
        outcome = report.outcome;
        report_attempt_id = report.attempt_id;
        report_sha256 = tools.report_sha256 report;
      } in
      let written = write_evidence report store in
      (report, record written { ledger = commits (insert manifest.commit entry entries) })

  -- After the cutover: success, or the way back.
  unfoldable pub conclude :
      StagedRelease
      → List ManagedTask
      → UpdateReport
      → Result SupervisorError (Unit {0})
      → Store M
      → UpdateReport × Store M
  unfolding restore_previous_release
  conclude previous staged_tasks report (ok healthy) store =
      (record report { outcome = success }, store)
  conclude previous staged_tasks report (err e) store =
      let ((evidence, rollback_errors), restored) =
        restore_previous_release tools config (names staged_tasks) previous store in
      (
        record report {
          rollback = some evidence;
          outcome = elim rollback_errors [ [] ↦ rolled_back | e' ∷ es ↦ rollback_failed ];
          errors = report.errors ++ e ∷ rollback_errors;
        },
        restored,
      )

  abbrev pub cutover_report :
      StagedRelease → StagedRelease → (swapped up : Bool) → UpdateReport → UpdateReport
  cutover_report previous staged swapped up report = record report {
    staged_release_path = some staged.release_path;
    cutover = some (record {
      from_commit = previous.commit;
      to_commit = staged.commit;
      pointer_swapped = swapped;
      tasks_started = up;
    });
  }

  -- From the staged release on: the previous pointer is kept, then the cutover.
  unfoldable pub switch :
      UpdateManifest
      → Dict LedgerEntry
      → StagedRelease
      → UpdateReport
      → StagedRelease
      → Store M
      → UpdateReport × Store M
  unfolding release_managed_tasks cutover conclude record_update
  switch manifest entries previous report staged store =
      let (previous_tasks, previous_offs) =
        release_managed_tasks tools config previous.release_path store.machine in
      let (staged_tasks, staged_offs) =
        release_managed_tasks tools config staged.release_path store.machine in
      let kept : Store M = record store { previous = some previous } in
      let ((swapped, up, result), switched) =
        cutover tools config previous_tasks staged_tasks staged_offs staged kept in
      let (concluded, settled) =
        conclude previous staged_tasks (cutover_report previous staged swapped up report) result
          switched in
      record_update manifest entries concluded settled

  unfoldable pub after_stage :
      UpdateManifest
      → Dict LedgerEntry
      → StagedRelease
      → UpdateReport
      → Result Text StagedRelease
      → Store M
      → UpdateReport × Store M
  unfolding switch fail_before_cutover
  after_stage manifest entries previous report (err e) store =
      fail_before_cutover (raised e) report store
  after_stage manifest entries previous report (ok staged) store =
      switch manifest entries previous report staged store

  unfoldable pub stage_and_switch :
      UpdateManifest
      → Dict LedgerEntry
      → StagedRelease
      → UpdateReport
      → Store M
      → UpdateReport × Store M
  unfolding after_stage
  stage_and_switch manifest entries previous report store =
      let (staged, machine) = tools.stage manifest store.machine in
      after_stage manifest entries previous (record report { previous = some previous }) staged
        (record store { machine = machine })

  -- The body of the `with` block, and the outer `except` for what it raises.
  unfoldable pub apply_locked :
      UpdateManifest
      → UpdateReport
      → Result SupervisorError Preflight
      → Store M
      → UpdateReport × Store M
  unfolding write_evidence stage_and_switch fail_before_cutover
  apply_locked manifest report (err e) store = fail_before_cutover e report store
  apply_locked manifest report (ok (replay outcome)) store =
      let replayed : UpdateReport = record report { outcome = outcome } in
      (replayed, write_evidence replayed store)
  apply_locked manifest report (ok (proceed previous entries)) store =
      stage_and_switch manifest entries previous report store

  abbrev pub unlock : UpdateReport × Store M → UpdateReport × Store M
  unlock (report, store) = (report, record store { lock = none })

  unfoldable pub after_lock :
      UpdateManifest
      → UpdateReport
      → Result SupervisorError (Unit {0})
      → Store M
      → UpdateReport × Store M
  unfolding fail_before_cutover preflight apply_locked
  after_lock manifest report (err e) store = fail_before_cutover e report store
  after_lock manifest report (ok done) store =
      unlock (apply_locked manifest report (preflight tools config manifest store) store)

  -- `parsed` is the manifest, or `none` for a text that does not parse, whose digest is `text_sha256`.
  unfoldable pub apply :
      (own_pid : ℕ)
      → (attempt_id text_sha256 : Text) → (parsed : Option UpdateManifest) → Store M
      → UpdateReport × Store M
  unfolding write_evidence acquire_lock after_lock
  apply own_pid attempt_id text_sha256 none store =
      let report : UpdateReport = record {
        attempt_id = attempt_id;
        release_id = codes "invalid-manifest";
        requested_commit = [];
        manifest_sha256 = text_sha256;
        previous = none;
        staged_release_path = none;
        cutover = none;
        rollback = none;
        outcome = rejected_manifest;
        errors = manifest_invalid ∷ [];
      } in
      (report, write_evidence report store)
  apply own_pid attempt_id text_sha256 (some manifest) store =
      let (lock, locked) = acquire_lock tools own_pid 2 store in
      after_lock manifest (new_report attempt_id manifest) lock locked
