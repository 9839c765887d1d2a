-- ===== src/Host/Kept/Runs.antt =====
-- That a run of the host under its lock loses no job.
use msos_autobuilder.Prelude.{
  ◌≡◌, none, some, Option, [], Text, codes, lookup, Bool, true, ◌==◌, Option-cases, inl, inr,
  if◌then◌else◌,
}
use msos_autobuilder.Text.{ends_with}
use msos_autobuilder.Host.Jobs.{already_running}
use msos_autobuilder.Host.Store.{
  HostLock, held_by, unreadable_lock, HostStore, Process, Answer, returned, raised, crashed, Action,
  return,
}
use msos_autobuilder.Host.Files.{file_operation}
use msos_autobuilder.Host.Feed.{sync_git_job_feed}
use msos_autobuilder.Host.Tools.{HostTools}
use msos_autobuilder.Host.Process.{
  HostRunResult, create_host_lock, clear_host_lock, take_host_lock, acquire_host_lock,
  drop_host_lock, release_host_lock, leave, with_lock, ignore_errors, run_locked, run_once,
}
use msos_autobuilder.Host.Triples.{
  Post, Triple, Settles, Keeps, Triple-return, Triple-raise, Triple-with_store,
  Triple-file_operation, Triple-token_hex, Triple-try_except, Triple->>=, Triple-if, Triple-weaken,
  Triple-both,
}
use msos_autobuilder.Host.Running.Recovery.{recover_interrupted_jobs-IsVacant}
use msos_autobuilder.Host.Stands.{InStore}
use msos_autobuilder.Host.Stands.Archiving.{recover_interrupted_jobs-InStore}
use msos_autobuilder.Host.Stands.Importing.{sync_git_job_feed-KeptWith}
use msos_autobuilder.Host.Kept.{Idle, process_one-InStore}

module _ {M : Type 0} (tools : HostTools M) (t : Text) where
  create_lock-InStore :
      (token : Text) → Keeps (InStore t) (file_operation (create_host_lock tools token))
  unfolding create_host_lock
  create_lock-InStore token =
      Triple-file_operation (create_host_lock tools token) (λ s p. p) created
    where
      created :
          (s : HostStore M) → InStore t s → Settles (InStore t) (create_host_lock tools token s)
      created s p = elim (Option-cases s.lock) [
        | inl e ↦ rw (create_host_lock, e) p
        | inr (holder, e) ↦ rw (create_host_lock, e) tt
      ]

  clear_lock-InStore : Keeps (InStore t) (file_operation (clear_host_lock tools))
  unfolding clear_host_lock
  clear_lock-InStore = Triple-file_operation (clear_host_lock tools) (λ s p. p) (λ s p. p)

  take_host_lock-InStore :
      (token : Text) (machine : M) (lock : Option HostLock)
      → Keeps (InStore t) (take_host_lock tools token machine lock)
  unfolding take_host_lock create_host_lock clear_host_lock
  take_host_lock-InStore token machine none = create_lock-InStore token
  take_host_lock-InStore token machine (some unreadable_lock) =
      Triple->>= clear_lock-InStore (λ u. create_lock-InStore token)
  take_host_lock-InStore token machine (some (held_by pid other)) =
      Triple-if (tools.pid_alive pid machine) (λ e. Triple-raise already_running (λ s p. p))
        (λ e. Triple->>= clear_lock-InStore (λ u. create_lock-InStore token))

  drop_host_lock-InStore :
      (token : Text) (lock : Option HostLock) → Keeps (InStore t) (drop_host_lock tools token lock)
  unfolding drop_host_lock
  drop_host_lock-InStore token none = Triple-return tt (λ s p. p)
  drop_host_lock-InStore token (some unreadable_lock) = Triple-return tt (λ s p. p)
  drop_host_lock-InStore token (some (held_by pid holder)) =
      Triple-if (holder == token) (λ e. clear_lock-InStore) (λ e. Triple-return tt (λ s p. p))

  release_host_lock-InStore : (token : Text) → Keeps (InStore t) (release_host_lock tools token)
  unfolding release_host_lock
  release_host_lock-InStore token =
      Triple-with_store λ s.
        Triple-weaken (drop_host_lock-InStore token s.lock) (λ r p. p.1) (λ u r p. p) (λ r p. p)

  leave-InStore :
      (token : Text) (r : Answer HostRunResult × Process M)
      → Post (λ u. InStore t) (InStore t) r
      → Post (λ u. InStore t) (InStore t) (leave tools token r)
  unfolding leave
  leave-InStore token (returned value, process) h =
      (Triple->>= (release_host_lock-InStore token) (λ u. Triple-return value (λ s p. p))).holds
        process h
  leave-InStore token (raised e, process) h =
      (Triple->>= (release_host_lock-InStore token) (λ u. Triple-raise e (λ s p. p))).holds process
        h
  leave-InStore token (crashed, process) h = h

  with_lock-InStore :
      (token : Text) (body : Action M HostRunResult)
      → Keeps (InStore t) body
      → Keeps (InStore t) (with_lock tools token body)
  unfolding with_lock acquire_host_lock
  with_lock-InStore token body h =
      Triple->>=
        (Triple-with_store λ s.
          Triple-weaken (take_host_lock-InStore token s.machine s.lock) (λ r p. p.1) (λ u r p. p)
            (λ r p. p))
        (λ u. record {
          holds = λ process p. leave-InStore token (body process) (h.holds process p);
        })

  sync_Idle :
      (sync_feed : Bool)
      → Triple
          (Idle tools t)
          (ignore_errors tools (if sync_feed then sync_git_job_feed tools else return []))
          (λ u. (Idle tools t))
          (Idle tools t)
  sync_Idle sync_feed =
      Triple-try_except
        (Triple->>= (Triple-if sync_feed (λ e. sync) (λ e. Triple-return [] (λ s p. p)))
          (λ u. Triple-return tt (λ s p. p)))
        (λ s p. p) (λ e. Triple-return tt (λ s p. p))
    where
      sync : Keeps (Idle tools t) (sync_git_job_feed tools)
      sync =
          sync_git_job_feed-KeptWith tools t
            (λ d. (n : Text) → ends_with (codes ".yaml") n ≡ true → lookup n d ≡ none)

  run_locked-InStore : (sync_feed : Bool) → Keeps (InStore t) (run_locked tools sync_feed)
  unfolding run_locked
  run_locked-InStore sync_feed =
      Triple->>=
        (Triple->>=
          (Triple-weaken
            (Triple-both (recover_interrupted_jobs-InStore tools t)
              (recover_interrupted_jobs-IsVacant tools))
            (λ s p. (p, tt)) (λ u s p. p) (λ s p. p.0))
          (λ u. Triple-weaken (sync_Idle sync_feed) (λ s p. p) (λ v s p. p) (λ s p. p.0)))
        (λ u. process_one-InStore tools t)

  pub run_once-InStore : (sync_feed : Bool) → Keeps (InStore t) (run_once tools sync_feed)
  unfolding run_once
  run_once-InStore sync_feed =
      Triple->>= (Triple-token_hex tools.token (λ v s n p. p))
        (λ token. with_lock-InStore token _ (run_locked-InStore sync_feed))
