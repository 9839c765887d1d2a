-- ===== src/SelfUpdate/Records.antt =====
-- The records of src/msos_autobuilder/self_update_supervisor.py and the files of the supervisor.
use msos_autobuilder.Prelude.{
  ℕ, Bool, false, not, ◌&&◌, ◌||◌, Option, none, some, List, Text, codes, ◌==◌, nat_eq, leb, length,
  all, keep, Dict, if◌then◌else◌, Result, ok, err, raise_if, ◌>>◌,
}

pub data SupervisorError : Type 0 where
  other_repository ledger_malformed commit_bound_elsewhere evidence_missing : SupervisorError
  pointer_invalid marker_mismatch cannot_activate already_running lock_not_acquired :
      SupervisorError
  manifest_invalid : SupervisorError
  raised : Text → SupervisorError

pub record UpdateManifest : Type 0 where
  pub release_id : Text
  pub repository : Text
  pub repo_url : Text
  pub commit : Text
  pub manifest_sha256 : Text

pub record ManagedTask : Type 0 where
  pub service : Text
  pub task_name : Text

pub record SupervisorConfig : Type 0 where
  pub repo_url : Text
  pub repository : Text
  pub managed_tasks : List ManagedTask

-- A release as a pointer file names it; also what `ReleaseBuilder.stage` returns, less its checks.
pub record StagedRelease : Type 0 where
  pub commit : Text
  pub release_path : Text

pub data UpdateOutcome : Type 0 where
  started rejected_manifest already_applied blocked_after_rollback : UpdateOutcome
  success rolled_back rollback_failed failed_before_cutover : UpdateOutcome

-- `report.cutover` once it is performed.
pub record CutoverEvidence : Type 0 where
  pub from_commit : Text
  pub to_commit : Text
  pub pointer_swapped : Bool
  pub tasks_started : Bool

pub record RollbackEvidence : Type 0 where
  pub restored_commit : Text
  pub pointer_restored : Bool
  pub tasks_restarted : Bool

pub record UpdateReport : Type 0 where
  pub attempt_id : Text
  pub release_id : Text
  pub requested_commit : Text
  pub manifest_sha256 : Text
  pub previous : Option StagedRelease
  pub staged_release_path : Option Text
  pub cutover : Option CutoverEvidence
  pub rollback : Option RollbackEvidence
  pub outcome : UpdateOutcome
  pub errors : List SupervisorError

pub record LedgerEntry : Type 0 where
  pub manifest_sha256 : Text
  pub outcome : UpdateOutcome
  pub report_attempt_id : Text
  pub report_sha256 : Text

-- `update-ledger.json`; a missing file is the empty ledger.
pub data LedgerFile : Type 0 where
  malformed_ledger : LedgerFile
  commits : Dict LedgerEntry → LedgerFile

-- The `pid` of the lock file: none in a file that cannot be read, or something that is no integer.
pub data LockPid : Type 0 where
  no_pid other_pid : LockPid
  pid : ℕ → LockPid

-- The supervisor's files, and the machine with its release directories and tasks.
pub record Store (M : Type 0) : Type 0 where
  pub machine : M
  pub active : Option StagedRelease
  pub previous : Option StagedRelease
  pub ledger : LedgerFile
  pub reports : Dict UpdateReport
  pub notifications : Dict UpdateOutcome
  pub lock : Option LockPid

-- What the supervisor is built with (`ReleaseBuilder`, `TaskController`, `FileHealthVerifier`), the
-- reads of the release directories, `_pid_is_running`, the digest of a report file, and the lock file
-- that another process may have created by the time that a turn of the lock's loop opens it again.
pub record Collaborators (M : Type 0) : Type 0 where
  pub stage : UpdateManifest → M → Result Text StagedRelease × M
  pub stop : List Text → M → Result Text (Unit {0}) × M
  pub start : List Text → M → Result Text (Unit {0}) × M
  pub disable : List Text → M → Result Text (Unit {0}) × M
  pub wait_for : Text → List ManagedTask → List ManagedTask → M → Result Text (Unit {0}) × M
  pub is_dir : Text → M → Bool
  pub marker_commit : Text → M → Option Text
  pub supports_refill : Text → M → Bool
  pub pid_is_running : ℕ → M → Bool
  pub report_sha256 : UpdateReport → Text
  pub relocked : (turns_left : ℕ) → Option LockPid

abbrev is_lower_hex : ℕ → Bool
is_lower_hex c = leb 48 c && leb c 57 || leb 97 c && leb c 102

-- `_COMMIT_RE.fullmatch`
unfoldable pub is_commit : Text → Bool
is_commit s = nat_eq (length s) 40 && all is_lower_hex s

-- `_SHA256_RE.fullmatch`
unfoldable pub is_digest : Text → Bool
is_digest s = nat_eq (length s) 64 && all is_lower_hex s

module _ {M : Type 0} (tools : Collaborators M) where
  unfoldable pub has_marker : StagedRelease → M → Bool
  has_marker release machine = elim (tools.marker_commit release.release_path machine) [
    | none ↦ false
    | some commit ↦ commit == release.commit
  ]

  unfoldable pub read_active_pointer : Store M → Result SupervisorError StagedRelease
  unfolding is_commit has_marker
  read_active_pointer store = elim store.active [
    | none ↦ err pointer_invalid
    | some release ↦ do
      raise_if
          (not (is_commit release.commit) || not (tools.is_dir release.release_path store.machine))
          pointer_invalid
      raise_if (not (has_marker release store.machine)) marker_mismatch
      ok release
  ]

  abbrev is_off : Text → M → ManagedTask → Bool
  is_off path machine task =
      task.service == codes "refill" && not (tools.supports_refill path machine)

  -- The tasks that a release starts, and those that it leaves disabled.
  unfoldable pub release_managed_tasks :
      SupervisorConfig → Text → M → List ManagedTask × List ManagedTask
  unfolding keep ◌==◌
  release_managed_tasks config path machine = (
    keep (λ t. not (is_off path machine t)) config.managed_tasks,
    keep (is_off path machine) config.managed_tasks,
  )

  -- A release path is taken as resolved; the pointer's time of activation is left out.
  unfoldable pub write_active_pointer :
      StagedRelease → Store M → Result SupervisorError (Unit {0}) × Store M
  unfolding has_marker
  write_active_pointer release store =
      if has_marker release store.machine
      then (ok tt, record store { active = some release })
      else (err cannot_activate, store)
