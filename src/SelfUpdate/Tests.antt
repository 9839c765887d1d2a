-- ===== src/SelfUpdate/Tests.antt =====
-- Updates of a small installation of src/msos_autobuilder/self_update_supervisor.py.
use msos_autobuilder.Prelude.{
  ℕ, suc, ◌≡◌, refl, true, false, none, some, [], ◌∷◌, Text, codes, ◌==◌, all, keep, lookup, insert,
  remove, ok, err, if◌then◌else◌,
}
use msos_autobuilder.SelfUpdate.Records.{
  UpdateManifest, SupervisorConfig, UpdateOutcome, success, rolled_back, UpdateReport, LedgerEntry,
  commits, pid, Store, Collaborators, is_commit, is_digest,
}
use msos_autobuilder.SelfUpdate.Lock.{acquire_lock}
use msos_autobuilder.SelfUpdate.Cutover.{restore_previous_release}
use msos_autobuilder.SelfUpdate.Apply.{apply}
use msos_autobuilder.SelfUpdate.Outcomes.{Points, pointers, apply-Points}
use msos_autobuilder.SelfUpdate.Replay.{installed, apply_known}

abbrev old_commit : Text
old_commit = codes "0000000000000000000000000000000000000000"

abbrev new_commit : Text
new_commit = codes "1111111111111111111111111111111111111111"

-- The machine counts its calls. A release lies under its commit; the healthy commit is given.
abbrev tools : Text → Collaborators ℕ
tools healthy = record {
  stage = λ manifest n.
      (ok (record { commit = manifest.commit; release_path = manifest.commit }), suc n);
  stop = λ tasks n. (ok tt, suc n);
  start = λ tasks n. (ok tt, suc n);
  disable = λ tasks n. (ok tt, suc n);
  wait_for =
      λ commit tasks offs n. (if commit == healthy then ok tt else err (codes "unhealthy"), suc n);
  is_dir = λ path n. true;
  marker_commit = λ path n. some path;
  supports_refill = λ path n. true;
  pid_is_running = λ p n. false;
  report_sha256 = λ report. codes "d";
  relocked = λ turns_left. none;
}

abbrev config : SupervisorConfig
config = record { repo_url = codes "u"; repository = codes "o/r"; managed_tasks = [] }

abbrev manifest : UpdateManifest
manifest = record {
  release_id = codes "r2";
  repository = codes "o/r";
  repo_url = codes "u";
  commit = new_commit;
  manifest_sha256 = codes "m";
}

abbrev store : Store ℕ
store = record {
  machine = 0;
  active = some (record { commit = old_commit; release_path = old_commit });
  previous = none;
  ledger = commits [];
  reports = [];
  notifications = [];
  lock = some (pid 7);
}

abbrev attempt : Text → UpdateReport × Store ℕ
attempt healthy = apply (tools healthy) config 1 (codes "a1") [] (some manifest) store

program : Unit {0}
unfolding apply restore_previous_release acquire_lock is_commit is_digest all keep lookup insert
    remove ◌==◌
program = tt

healthy_update : (attempt new_commit).0.outcome ≡ success
unfolding program
healthy_update = refl

unhealthy_update : (attempt old_commit).0.outcome ≡ rolled_back
unfolding program
unhealthy_update = refl

stuck_update : (attempt (codes "none")).0.outcome ≡ UpdateOutcome.rollback_failed
unfolding program
stuck_update = refl

apply-Points_example :
    Points
      (attempt old_commit).0.outcome
      (attempt old_commit).0
      (pointers store)
      (pointers (attempt old_commit).1)
apply-Points_example =
    apply-Points (tools old_commit) config 1 (codes "a1") [] (some manifest) store

abbrev entry : LedgerEntry
entry = record {
  manifest_sha256 = codes "m";
  outcome = rolled_back;
  report_attempt_id = codes "a0";
  report_sha256 = codes "d";
}

abbrev known : Store ℕ
known = record store { ledger = commits ((new_commit, entry) ∷ []) }

entry_there : lookup new_commit ((new_commit, entry) ∷ []) ≡ some entry
unfolding program
entry_there = refl

apply_known_example :
    installed (apply (tools new_commit) config 1 (codes "a1") [] (some manifest) known).1
    ≡ installed known
apply_known_example =
    apply_known (tools new_commit) config 1 (codes "a1") [] manifest entry
      ((new_commit, entry) ∷ []) known refl entry_there
