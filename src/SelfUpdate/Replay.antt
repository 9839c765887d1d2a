-- ===== src/SelfUpdate/Replay.antt =====
-- A commit that the ledger of src/msos_autobuilder/self_update_supervisor.py knows is not installed again.
use msos_autobuilder.Prelude.{
  ℕ, ◌≡◌, refl, ap, ◌∙◌, Option, some, Text, Dict, lookup, arith, Result, ok, err,
}
use msos_autobuilder.SelfUpdate.Records.{
  SupervisorError, UpdateManifest, SupervisorConfig, StagedRelease, UpdateReport, LedgerEntry,
  LedgerFile, commits, Store, Collaborators,
}
use msos_autobuilder.SelfUpdate.Lock.{acquire_lock}
use msos_autobuilder.SelfUpdate.Ledger.{Preflight, replay, proceed, consult_ledger, preflight}
use msos_autobuilder.SelfUpdate.Apply.{
  write_evidence, new_report, fail_before_cutover, apply_locked, after_lock, apply,
}

-- Everything but the lock, the reports and the notifications.
abbrev pub installed :
    {M : Type 0} → Store M → M × Option StagedRelease × Option StagedRelease × LedgerFile
installed store = (store.machine, store.active, store.previous, store.ledger)

module _ {M : Type 0} (tools : Collaborators M) (config : SupervisorConfig) where
  installed-acquire_lock :
      (own_pid : ℕ) (store : Store M)
      → installed (acquire_lock tools own_pid 2 store).1 ≡ installed store
  unfolding acquire_lock
  installed-acquire_lock own_pid store = ground arith

  no_switch :
      (manifest : UpdateManifest) (report : UpdateReport) (entry : LedgerEntry)
      (r : Result SupervisorError Preflight) (ledger : Dict LedgerEntry) (store : Store M)
      → preflight tools config manifest store ≡ r
      → store.ledger ≡ commits ledger
      → lookup manifest.commit ledger ≡ some entry
      → installed (apply_locked tools config manifest report r store).1 ≡ installed store
  unfolding apply_locked fail_before_cutover write_evidence preflight consult_ledger
  no_switch manifest report entry (err e) ledger store h l k = refl
  no_switch manifest report entry (ok (replay outcome)) ledger store h l k = refl
  no_switch manifest report entry (ok (proceed previous old)) ledger store h l k = ground arith

  after_lock-installed :
      (manifest : UpdateManifest) (report : UpdateReport) (entry : LedgerEntry)
      (ledger : Dict LedgerEntry) (lock : Result SupervisorError (Unit {0})) (store : Store M)
      → store.ledger ≡ commits ledger
      → lookup manifest.commit ledger ≡ some entry
      → installed (after_lock tools config manifest report lock store).1 ≡ installed store
  unfolding after_lock fail_before_cutover write_evidence
  after_lock-installed manifest report entry ledger (err e) store l k = refl
  after_lock-installed manifest report entry ledger (ok done) store l k =
      no_switch manifest report entry _ ledger store refl l k

  -- Applying a manifest whose commit is in the ledger, successful or not, leaves the machine, both
  -- pointers and the ledger as they were.
  pub apply_known :
      (own_pid : ℕ) (attempt_id text_sha256 : Text) (manifest : UpdateManifest)
      (entry : LedgerEntry) (ledger : Dict LedgerEntry) (store : Store M)
      → store.ledger ≡ commits ledger
      → lookup manifest.commit ledger ≡ some entry
      → installed (apply tools config own_pid attempt_id text_sha256 (some manifest) store).1
        ≡ installed store
  unfolding apply
  apply_known own_pid attempt_id text_sha256 manifest entry ledger store l k =
      let kept = installed-acquire_lock own_pid store in
      let locked = acquire_lock tools own_pid 2 store in
      after_lock-installed manifest (new_report attempt_id manifest) entry ledger locked.0 locked.1
        (ap (λ (t : M × Option StagedRelease × Option StagedRelease × LedgerFile). t.3) kept ∙ l) k
      ∙ kept
