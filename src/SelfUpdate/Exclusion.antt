-- ===== src/SelfUpdate/Exclusion.antt =====
-- How the lock of src/msos_autobuilder/self_update_supervisor.py keeps update attempts apart.
use msos_autobuilder.Prelude.{ℕ, ◌≡◌, true, false, Option, none, some, ◌⊎◌, Result, ok, err}
use msos_autobuilder.SelfUpdate.Records.{
  SupervisorError, already_running, lock_not_acquired, LockPid, pid, Store, Collaborators,
}
use msos_autobuilder.SelfUpdate.Lock.{holder_is_running}

module _ {M : Type 0} (tools : Collaborators M) (own_pid : ℕ) where
  -- The lock file is there, and its process does not run.
  abbrev pub IsStale : Option LockPid → M → Type 0
  IsStale lock machine =
      (holder : LockPid) × (lock ≡ some holder)
      × (holder_is_running tools own_pid holder machine ≡ false)

  -- What the two turns find: first the lock file that is there, then, where that was stale and removed,
  -- what another process has put in its place.
  abbrev pub Finds : Store M → Option LockPid → Type 0
  Finds store lock =
      (store.lock ≡ lock) ⊎ (IsStale store.lock store.machine × (tools.relocked 1 ≡ lock))

  -- The lock is taken if a turn finds none, refused if one finds a running holder, given up on if both
  -- find a stale one.
  abbrev Answered : Store M → Result SupervisorError (Unit {0}) × Store M → Type 0
  Answered store answer =
      (Finds store none × (answer ≡ (ok tt, record store { lock = some (pid own_pid) })))
      ⊎ ((holder : LockPid) × Finds store (some holder)
          × (holder_is_running tools own_pid holder store.machine ≡ true)
          × (answer ≡ (err already_running, record store { lock = some holder })))
      ⊎ (IsStale store.lock store.machine
          × IsStale (tools.relocked 1) store.machine
          × (answer ≡ (err lock_not_acquired, record store { lock = tools.relocked 0 })))

  abbrev refusal : Store M → Option LockPid → Result SupervisorError (Unit {0}) × Store M
  refusal store lock = (err already_running, record store { lock = lock })
