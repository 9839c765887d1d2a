-- ===== src/SelfUpdate/Lock.antt =====
-- `_exclusive_update_lock` of src/msos_autobuilder/self_update_supervisor.py.
use msos_autobuilder.Prelude.{
  ℕ, zero, suc, Bool, true, false, none, some, if◌then◌else◌, Result, ok, err,
}
use msos_autobuilder.SelfUpdate.Records.{
  SupervisorError, already_running, lock_not_acquired, LockPid, no_pid, other_pid, pid, Store,
  Collaborators,
}

module _ {M : Type 0} (tools : Collaborators M) (own_pid : ℕ) where
  -- Whether the holder of the lock file counts as running: what is no integer does.
  unfoldable pub holder_is_running : LockPid → M → Bool
  holder_is_running no_pid machine = false
  holder_is_running other_pid machine = true
  holder_is_running (pid n) machine = tools.pid_is_running n machine

  -- The loop of `for _ in range(tries)`: a stale lock file is removed, and the next turn finds none,
  -- or what another process has created since.
  unfoldable pub acquire_lock : (tries : ℕ) → Store M → Result SupervisorError (Unit {0}) × Store M
  unfolding holder_is_running
  acquire_lock zero store = (err lock_not_acquired, store)
  acquire_lock (suc tries) store =
      let again = acquire_lock tries (record store { lock = tools.relocked tries }) in
      elim store.lock [
        | none ↦ (ok tt, record store { lock = some (pid own_pid) })
        | some holder ↦
            if holder_is_running holder store.machine then (err already_running, store) else again
      ]
