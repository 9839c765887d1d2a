-- ===== src/Host/Process.antt =====
-- `PersistentHost` of src/msos_autobuilder/persistent_host.py: the claim of the next job,
-- `process_one`, the process lock and `run_once`.
use msos_autobuilder.Prelude.{
  Bool, true, false, not, ◌&&◌, ◌||◌, Option, none, some, List, [], ◌∷◌, Text, codes, ◌==◌, lookup,
  if◌then◌else◌, Result, ok, err,
}
use msos_autobuilder.Text.{starts_with, is_empty}
use msos_autobuilder.Host.Jobs.{
  HostError, AdmittedTarget, HostJob, already_running, lock_lost, freeze_incomplete,
  freeze_over_source, freeze_outside, freeze_drifted, source_head_differs, parse_host_job,
}
use msos_autobuilder.Host.Store.{
  HostLock, unreadable_lock, held_by, Process, Answer, returned, raised, crashed, Action, return,
  raise, refuse_if, ◌>>=◌, ◌>>◌, try_except, with_store, sort_names, yaml_names, stem,
}
use msos_autobuilder.Host.Files.{Change, file_operation, token_hex, start_running}
use msos_autobuilder.Host.Feed.{sync_git_job_feed}
use msos_autobuilder.Host.Archives.{archive_failure, recover_interrupted_jobs, archive_success}
use msos_autobuilder.Host.Tools.{HostTools, call}

pub record HostRunResult : Type 0 where
  pub processed : Bool
  pub job_id : Option Text
  pub outcome : Text

abbrev idle : HostRunResult
idle = record { processed = false; job_id = none; outcome = codes "idle" }

abbrev ended : HostJob → Text → HostRunResult
ended job outcome = record { processed = true; job_id = some job.job_id; outcome = outcome }

-- The head is empty, or the commit starts with it.
abbrev matches_head : Option Text → Text → Bool
matches_head none commit = true
matches_head (some head) commit = is_empty head || starts_with head commit

module _ {M : Type 0} (tools : HostTools M) where
  -- A job that does not parse is archived as failed, one that is not approved is passed over, and
  -- the first approved one moves to the running directory.
  unfoldable pub consider_job :
      Text
      → Result HostError HostJob
      → Action M (Option (Text × HostJob))
      → Action M (Option (Text × HostJob))
  consider_job name (err malformed) rest =
      file_operation (start_running name)
      >> archive_failure tools name (stem name) (codes "failed")
      >> rest
  consider_job name (ok job) rest =
      if job.approved
      then (file_operation (start_running name) >> return (some (name, job)))
      else rest

  unfoldable pub consider :
      Text → Option Text → Action M (Option (Text × HostJob)) → Action M (Option (Text × HostJob))
  unfolding consider_job
  consider name none rest = rest
  consider name (some text) rest = consider_job name (parse_host_job tools.codec text) rest

  -- The loop over the pending files.
  unfoldable pub claim_from : List Text → Action M (Option (Text × HostJob))
  unfolding consider
  claim_from [] = return none
  claim_from (name ∷ names) =
      with_store λ store. consider name (lookup name store.pending) (claim_from names)

  unfoldable pub claim_next_job : Action M (Option (Text × HostJob))
  unfolding claim_from
  claim_next_job = with_store λ store. claim_from (sort_names (yaml_names store.pending))

  -- The prepared commit starts with the head that the job expects.
  abbrev head_differs : Option Text → Text → Bool
  head_differs none prepared = false
  head_differs (some head) prepared =
      not (is_empty head) && not (starts_with (tools.codec.lower head) prepared)

  unfoldable pub prepare_frozen_source : HostJob → Option AdmittedTarget → Action M (Unit {0})
  prepare_frozen_source job none = raise freeze_incomplete
  prepare_frozen_source job (some (repository, commit, remote_url)) = with_store λ store.
      refuse_if (tools.destination_is_source job.job_id store.machine) freeze_over_source
      >> refuse_if (not (tools.destination_is_inside job.job_id store.machine)) freeze_outside
      >> call (tools.fetch_declared_target repository commit remote_url)
      >>= λ prepared.
          refuse_if (not (prepared == commit)) freeze_drifted
          >> refuse_if (head_differs job.expected_source_head prepared) source_head_differs

  unfoldable pub select_source : HostJob → Option AdmittedTarget → Action M (Unit {0})
  unfolding prepare_frozen_source
  select_source job (some admitted) = prepare_frozen_source job (some admitted)
  select_source job none = call tools.current_head >>= λ head.
      refuse_if (not (matches_head job.expected_source_head head)) source_head_differs

  -- A job with an admitted target runs on its frozen commit, another one on the source as it is.
  abbrev pub prepare_source : HostJob → Action M (Unit {0})
  prepare_source job = select_source job job.admitted_target

  unfoldable pub run_claimed : Text → HostJob → Action M HostRunResult
  unfolding select_source
  run_claimed name job =
      call tools.load_config
      >> prepare_source job
      >> call (tools.load_specs job.manifest)
      >> call (tools.runner job)
      >> archive_success tools name job
      >> return (ended job (codes "completed"))

  unfoldable pub process_claimed : Option (Text × HostJob) → Action M HostRunResult
  unfolding run_claimed
  process_claimed none = return idle
  process_claimed (some (name, job)) = try_except (run_claimed name job) λ e.
      archive_failure tools name job.job_id (codes "failed") >> return (ended job (codes "failed"))

  unfoldable pub process_one : Action M HostRunResult
  unfolding process_claimed
  process_one = claim_next_job >>= process_claimed

  unfoldable pub clear_host_lock : Change M
  clear_host_lock store = ok (record store { lock = none })

  unfoldable pub create_host_lock : Text → Change M
  create_host_lock token store = elim store.lock [
    | some other ↦ err lock_lost
    | none ↦ ok (record store { lock = some (held_by tools.pid token) })
  ]

  unfoldable pub take_host_lock : Text → M → Option HostLock → Action M (Unit {0})
  take_host_lock token machine none = file_operation (create_host_lock token)
  take_host_lock token machine (some unreadable_lock) =
      file_operation clear_host_lock >> file_operation (create_host_lock token)
  take_host_lock token machine (some (held_by pid other)) =
      if tools.pid_alive pid machine
      then raise already_running
      else (file_operation clear_host_lock >> file_operation (create_host_lock token))

  -- `HostProcessLock.acquire`: a lock file whose process is not alive, or that does not say which,
  -- is put aside.
  unfoldable pub acquire_host_lock : Text → Action M (Unit {0})
  unfolding take_host_lock
  acquire_host_lock token = with_store λ store. take_host_lock token store.machine store.lock

  unfoldable pub drop_host_lock : Text → Option HostLock → Action M (Unit {0})
  drop_host_lock token (some (held_by pid holder)) =
      if holder == token then file_operation clear_host_lock else return tt
  drop_host_lock token (some unreadable_lock) = return tt
  drop_host_lock token none = return tt

  -- `HostProcessLock.release`
  unfoldable pub release_host_lock : Text → Action M (Unit {0})
  unfolding drop_host_lock
  release_host_lock token = with_store λ store. drop_host_lock token store.lock

  unfoldable pub leave {ℓ} : {A : Type ℓ} → Text → Answer A × Process M → Answer A × Process M
  unfolding release_host_lock
  leave token (returned value, process) = (release_host_lock token >> return value) process
  leave token (raised e, process) = (release_host_lock token >> raise e) process
  leave token (crashed, process) = (crashed, process)

  -- `with HostProcessLock(...)`
  unfoldable pub with_lock {ℓ} : {A : Type ℓ} → Text → Action M A → Action M A
  unfolding acquire_host_lock leave
  with_lock token body = acquire_host_lock token >> λ process. leave token (body process)

  abbrev pub ignore_errors : Action M (List Text) → Action M (Unit {0})
  ignore_errors body = try_except (body >> return tt) (λ e. return tt)

  unfoldable pub run_locked : Bool → Action M HostRunResult
  unfolding process_one
  run_locked sync_feed =
      recover_interrupted_jobs tools
      >> ignore_errors (if sync_feed then sync_git_job_feed tools else return [])
      >> process_one

  -- `run_once`; the flag says whether a feed is configured and to be read.
  unfoldable pub run_once : Bool → Action M HostRunResult
  unfolding run_locked with_lock
  run_once sync_feed = token_hex tools.token >>= λ token. with_lock token (run_locked sync_feed)
