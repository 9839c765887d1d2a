-- ===== src/SelfUpdate/Outcomes.antt =====
-- Which release is active after `UpdateSupervisor.apply` of src/msos_autobuilder/self_update_supervisor.py, by
-- the outcome that its report names.
use msos_autobuilder.Prelude.{
  ℕ, ◌≡◌, inl, inr, refl, sym, ◌∙◌, Option, none, some, List, [], ◌∷◌, Text, Dict, arith, Result,
  ok, err,
}
use msos_autobuilder.SelfUpdate.Records.{
  SupervisorError, UpdateManifest, ManagedTask, SupervisorConfig, StagedRelease, UpdateOutcome,
  success, rolled_back, rollback_failed, UpdateReport, LedgerEntry, Store, Collaborators,
  release_managed_tasks,
}
use msos_autobuilder.SelfUpdate.Lock.{acquire_lock}
use msos_autobuilder.SelfUpdate.Cutover.{names, restore_previous_release, cutover}
use msos_autobuilder.SelfUpdate.Ledger.{Preflight, replay, proceed, preflight}
use msos_autobuilder.SelfUpdate.Apply.{
  cutover_report, write_evidence, new_report, fail_before_cutover, record_update, conclude, switch,
  after_stage, stage_and_switch, apply_locked, after_lock, apply,
}
use msos_autobuilder.SelfUpdate.Pointers.{cutover_pointers, restore_pointers}
use msos_autobuilder.SelfUpdate.LedgerAnswers.{preflight_lem}

-- The release that a report says it switched to.
abbrev pub switched_to : UpdateReport → Option StagedRelease
switched_to report = elim report.cutover [
  | none ↦ none
  | some evidence ↦ elim report.staged_release_path [
    | none ↦ none
    | some path ↦ some (record { commit = evidence.to_commit; release_path = path })
  ]
]

-- A store's active and previous pointers.
abbrev pub Pointers : Type 0
Pointers = Option StagedRelease × Option StagedRelease

abbrev pub pointers : {M : Type 0} → Store M → Pointers
pointers store = (store.active, store.previous)

-- What becomes of the pointers, by the outcome.
abbrev pub Points : UpdateOutcome → UpdateReport → Pointers → Pointers → Type 0
Points success report (old, kept) (active, previous) =
    (report.previous ≡ old) × (previous ≡ old) × (active ≡ switched_to report)
Points rolled_back report (old, kept) (active, previous) =
    (report.previous ≡ old) × (previous ≡ old) × (active ≡ old)
Points rollback_failed report (old, kept) (active, previous) =
    (report.previous ≡ old) × (previous ≡ old)
Points _ report (old, kept) (active, previous) = (previous ≡ kept) × (active ≡ old)

module _ {M : Type 0} (tools : Collaborators M) (config : SupervisorConfig) where
  after_rollback :
      (errors : List SupervisorError) (report : UpdateReport) (before after : Store M)
      → report.previous ≡ before.active
      → after.previous ≡ before.active
      → (errors ≡ [] → after.active ≡ before.active)
      → Points
          (elim errors [ [] ↦ rolled_back | e ∷ es ↦ rollback_failed ])
          report
          (pointers before)
          (pointers after)
  after_rollback [] report before after p q back = (p, q, back refl)
  after_rollback (e ∷ es) report before after p q back = (p, q)

  conclude-Points :
      (previous : StagedRelease) (tasks : List ManagedTask) (report : UpdateReport)
      (r : Result SupervisorError (Unit {0})) (before store : Store M)
      → before.active ≡ some previous
      → report.previous ≡ some previous
      → store.previous ≡ some previous
      → (r ≡ ok tt → store.active ≡ switched_to report)
      → Points
          (conclude tools config previous tasks report r store).0.outcome
          (conclude tools config previous tasks report r store).0
          (pointers before)
          (pointers (conclude tools config previous tasks report r store).1)
  unfolding conclude
  conclude-Points previous tasks report (ok done) before store b p q swapped =
      (p ∙ sym b, q ∙ sym b, swapped refl)
  conclude-Points previous tasks report (err e) before store b p q swapped =
      let undone = restore_previous_release tools config (names tasks) previous store in
      let restored = restore_pointers tools config (names tasks) previous store in
      after_rollback undone.0.1 _ before undone.1 (p ∙ sym b) (restored.0 ∙ q ∙ sym b)
        λ none_left. restored.1 none_left ∙ sym b

  switch-Points :
      (manifest : UpdateManifest) (ledger : Dict LedgerEntry) (previous : StagedRelease)
      (report : UpdateReport) (staged : StagedRelease) (before store : Store M)
      → before.active ≡ some previous
      → report.previous ≡ some previous
      → Points
          (switch tools config manifest ledger previous report staged store).0.outcome
          (switch tools config manifest ledger previous report staged store).0
          (pointers before)
          (pointers (switch tools config manifest ledger previous report staged store).1)
  unfolding switch record_update write_evidence
  switch-Points manifest ledger previous report staged before store b p =
      let tasks_of =
        λ (r : StagedRelease). release_managed_tasks tools config r.release_path store.machine in
      let kept : Store M = record store { previous = some previous } in
      let cut =
        cutover tools config (tasks_of previous).0 (tasks_of staged).0 (tasks_of staged).1 staged
          kept in
      let moved =
        cutover_pointers tools config (tasks_of previous).0 (tasks_of staged).0 (tasks_of staged).1
          staged kept in
      conclude-Points previous (tasks_of staged).0
        (cutover_report tools config previous staged cut.0.0 cut.0.1 report) cut.0.2 before cut.1 b
        p moved.0 moved.1

  after_stage-Points :
      (manifest : UpdateManifest) (ledger : Dict LedgerEntry) (previous : StagedRelease)
      (report : UpdateReport) (staged : Result Text StagedRelease) (before store : Store M)
      → before.active ≡ some previous
      → report.previous ≡ some previous
      → store.active ≡ before.active
      → store.previous ≡ before.previous
      → Points
          (after_stage tools config manifest ledger previous report staged store).0.outcome
          (after_stage tools config manifest ledger previous report staged store).0
          (pointers before)
          (pointers (after_stage tools config manifest ledger previous report staged store).1)
  unfolding after_stage fail_before_cutover write_evidence
  after_stage-Points manifest ledger previous report (err e) before store b p same kept =
      (kept, same)
  after_stage-Points manifest ledger previous report (ok staged) before store b p same kept =
      switch-Points manifest ledger previous report staged before store b p

  apply_locked-Points :
      (manifest : UpdateManifest) (report : UpdateReport) (r : Result SupervisorError Preflight)
      (before store : Store M)
      → preflight tools config manifest store ≡ r
      → store.active ≡ before.active
      → store.previous ≡ before.previous
      → Points
          (apply_locked tools config manifest report r store).0.outcome
          (apply_locked tools config manifest report r store).0
          (pointers before)
          (pointers (apply_locked tools config manifest report r store).1)
  unfolding apply_locked fail_before_cutover write_evidence stage_and_switch
  apply_locked-Points manifest report (err e) before store h same kept = (kept, same)
  apply_locked-Points manifest report (ok (replay outcome)) before store h same kept =
      elim (preflight_lem tools config manifest store (replay outcome) h) [
        | inl is ↦ rw is (kept, same)
        | inr is ↦ rw is (kept, same)
      ]
  apply_locked-Points manifest report (ok (proceed previous ledger)) before store h same kept =
      after_stage-Points manifest ledger previous (record report { previous = some previous })
        (tools.stage manifest store.machine).0 before
        (record store { machine = (tools.stage manifest store.machine).1 })
        (sym same ∙ preflight_lem tools config manifest store (proceed previous ledger) h) refl same
        kept

  lock_points :
      (own_pid : ℕ) (store : Store M)
      → ((acquire_lock tools own_pid 2 store).1.active ≡ store.active)
        × ((acquire_lock tools own_pid 2 store).1.previous ≡ store.previous)
  unfolding acquire_lock
  lock_points own_pid store = (ground arith, ground arith)

  after_lock-Points :
      (manifest : UpdateManifest) (report : UpdateReport) (lock : Result SupervisorError (Unit {0}))
      (before locked : Store M)
      → locked.active ≡ before.active
      → locked.previous ≡ before.previous
      → Points
          (after_lock tools config manifest report lock locked).0.outcome
          (after_lock tools config manifest report lock locked).0
          (pointers before)
          (pointers (after_lock tools config manifest report lock locked).1)
  unfolding after_lock fail_before_cutover write_evidence
  after_lock-Points manifest report (err e) before locked same kept = (kept, same)
  after_lock-Points manifest report (ok done) before locked same kept =
      apply_locked-Points manifest report _ before locked refl same kept

  -- The pointers after an attempt follow from the outcome that its report names. On success the
  -- active pointer names the staged release and the previous one the release that was active; after a
  -- rollback the active pointer is as it was; a failed rollback has kept the former release as the
  -- previous one; every other outcome has changed neither pointer.
  pub apply-Points :
      (own_pid : ℕ) (attempt_id text_sha256 : Text) (parsed : Option UpdateManifest)
      (store : Store M)
      → Points
          (apply tools config own_pid attempt_id text_sha256 parsed store).0.outcome
          (apply tools config own_pid attempt_id text_sha256 parsed store).0
          (pointers store)
          (pointers (apply tools config own_pid attempt_id text_sha256 parsed store).1)
  unfolding apply write_evidence
  apply-Points own_pid attempt_id text_sha256 none store = (refl, refl)
  apply-Points own_pid attempt_id text_sha256 (some manifest) store =
      let kept = lock_points own_pid store in
      after_lock-Points manifest (new_report attempt_id manifest)
        (acquire_lock tools own_pid 2 store).0 store (acquire_lock tools own_pid 2 store).1 kept.0
        kept.1
