-- ===== src/SelfUpdate/LedgerAnswers.antt =====
-- What the reads of the ledger in src/msos_autobuilder/self_update_supervisor.py can answer.
use msos_autobuilder.Prelude.{
  ◌≡◌, ◌⊎◌, inl, inr, Bool-cases, raise_if, refl, ◌∙◌, true, not, ◌||◌, Option, none, some, ◌==◌,
  Dict, lookup, arith, ok, err, >>=-eq-ok,
}
use msos_autobuilder.Text.{is_empty}
use msos_autobuilder.SelfUpdate.Records.{
  is_digest, commit_bound_elsewhere, evidence_missing, UpdateManifest, SupervisorConfig,
  UpdateOutcome, already_applied, blocked_after_rollback, LedgerEntry, LedgerFile, malformed_ledger,
  ledger_malformed, commits, Store, Collaborators, read_active_pointer,
}
use msos_autobuilder.SelfUpdate.Ledger.{
  is_success, Preflight, replay, proceed, preflight, replay_outcome, consult_ledger,
}

-- What the reads before the cutover have found: an earlier outcome, or the active release.
abbrev pub Warranted : {M : Type 0} → Store M → Preflight → Type 0
Warranted store (replay outcome) = (outcome ≡ already_applied) ⊎ (outcome ≡ blocked_after_rollback)
Warranted store (proceed previous entries) = store.active ≡ some previous

module _ {M : Type 0} (tools : Collaborators M) (config : SupervisorConfig) where
  replay_outcome_lem :
      (manifest : UpdateManifest) (entry : LedgerEntry) (store : Store M) (outcome : UpdateOutcome)
      → replay_outcome tools config manifest entry store ≡ ok outcome
      → (outcome ≡ already_applied) ⊎ (outcome ≡ blocked_after_rollback)
  unfolding replay_outcome
  replay_outcome_lem manifest entry store outcome h =
      let (u, a, h1) =
        >>=-eq-ok
          (raise_if (not (entry.manifest_sha256 == manifest.manifest_sha256))
            commit_bound_elsewhere)
          _ h in
      let (v, b, h2) =
        >>=-eq-ok
          (raise_if (is_empty entry.report_attempt_id || not (is_digest entry.report_sha256))
            evidence_missing)
          _ h1 in
      let (w, c, h3) =
        >>=-eq-ok
          (raise_if
            (elim (lookup entry.report_attempt_id store.reports) [
              | none ↦ true
              | some report ↦ not (tools.report_sha256 report == entry.report_sha256)
            ])
            evidence_missing)
          _ h2 in
      elim (Bool-cases (is_success entry.outcome)) [ inl yes' ↦ inl cc | inr no' ↦ inr cc ]

  consult_ledger_lem :
      (manifest : UpdateManifest) (store : Store M) (ledger : Dict LedgerEntry)
      (entry : Option LedgerEntry) (found : Preflight)
      → consult_ledger tools config manifest store ledger entry ≡ ok found
      → Warranted store found
  unfolding consult_ledger read_active_pointer
  consult_ledger_lem manifest store ledger none (replay outcome) h = ground arith
  consult_ledger_lem manifest store ledger none (proceed previous old) h = ground arith
  consult_ledger_lem manifest store ledger (some entry) (replay outcome) h =
      let (answer, is, h1) = >>=-eq-ok (replay_outcome tools config manifest entry store) _ h in
      replay_outcome_lem manifest entry store outcome (is ∙ cc)
  consult_ledger_lem manifest store ledger (some entry) (proceed previous old) h = ground arith

  preflight_of_ledger :
      (manifest : UpdateManifest) (store : Store M) (file : LedgerFile) (found : Preflight)
      → store.ledger ≡ file
      → preflight tools config manifest store ≡ ok found
      → Warranted store found
  unfolding preflight
  preflight_of_ledger manifest store malformed_ledger found l h =
      let impossible : err ledger_malformed ≡ ok found = ground arith in cc
  preflight_of_ledger manifest store (commits ledger) found l h =
      consult_ledger_lem manifest store ledger (lookup manifest.commit ledger) found (ground arith)

  pub preflight_lem :
      (manifest : UpdateManifest) (store : Store M) (found : Preflight)
      → preflight tools config manifest store ≡ ok found
      → Warranted store found
  preflight_lem manifest store found h =
      preflight_of_ledger manifest store store.ledger found refl h
