-- ===== src/Host/Kept.antt =====
-- That `run_once` of src/msos_autobuilder/persistent_host.py loses no job: every text that stands in
-- the queue or in an archive stands there afterwards, however the run ends.
pub mod Runs
use msos_autobuilder.Prelude.{
  ◌≡◌, none, some, Option, List, [], ◌∷◌, Text, codes, lookup, Result, ok, err, Bool, true, All,
  ◌==◌, Option-cases, inl, inr, if◌then◌else◌,
}
use msos_autobuilder.Text.{ends_with}
use msos_autobuilder.Host.Jobs.{HostError, HostJob, AdmittedTarget, already_running, parse_host_job}
use msos_autobuilder.Host.Store.{
  HostLock, held_by, unreadable_lock, HostStore, Process, Answer, returned, raised, crashed, Action,
  return, stem, yaml_names,
}
use msos_autobuilder.Host.Store.Sorting.{sort_names-All, yaml_names-All}
use msos_autobuilder.Host.Files.{file_operation, start_running}
use msos_autobuilder.Host.Feed.{sync_git_job_feed}
use msos_autobuilder.Host.Tools.{HostTools}
use msos_autobuilder.Host.Archives.{archive_failure}
use msos_autobuilder.Host.Process.{
  HostRunResult, consider_job, consider, claim_from, claim_next_job, prepare_frozen_source,
  select_source, run_claimed, process_claimed, process_one, create_host_lock, clear_host_lock,
  take_host_lock, acquire_host_lock, drop_host_lock, release_host_lock, leave, with_lock,
  ignore_errors, run_locked, run_once,
}
use msos_autobuilder.Host.Triples.{
  Post, Triple, Settles, Keeps, Triple-return, Triple-raise, Triple-with_store,
  Triple-file_operation, Triple-call, Triple-token_hex, Triple-refuse_if, Triple-try_except,
  Triple->>=, Triple-if, Triple-weaken, Triple-both, Triple-all,
}
use msos_autobuilder.Host.Running.{Leaving, IsVacant, start_running-Leaving}
use msos_autobuilder.Host.Running.Recovery.{archive_failure-NotRunning}
use msos_autobuilder.Host.Running.Recovery.{recover_interrupted_jobs-IsVacant}
use msos_autobuilder.Host.Stands.{InStore}
use msos_autobuilder.Host.Stands.Operations.{start_running-InStore}
use msos_autobuilder.Host.Stands.Archiving.{
  archive_failure-InStore, archive_success-InStore, recover_interrupted_jobs-InStore,
}
use msos_autobuilder.Host.Stands.Importing.{sync_git_job_feed-KeptWith}

module _ {M : Type 0} (tools : HostTools M) (t : Text) where
  abbrev pub Idle : HostStore M → Type 0
  Idle s = InStore t s × IsVacant s

  -- A job is in the running directory, and no other.
  abbrev Busy : Text → HostStore M → Type 0
  Busy name s = InStore t s × ((n : Text) → ends_with (codes ".yaml") n ≡ true → Leaving name n s)

  start_job :
      (name : Text)
      → ends_with (codes ".yaml") name ≡ true
      → Triple Idle (file_operation (start_running name)) (λ u. Busy name) (InStore t)
  start_job name yaml =
      Triple-weaken
        (Triple-both
          (Triple-file_operation (start_running name) (λ s p. p.0)
            (λ s p. start_running-InStore t s name (p.1 name yaml) p.0))
          (Triple-all (λ s. tt)
            λ n.
              Triple-all (λ s. tt)
                λ e.
                  Triple-file_operation (start_running name) (λ s p. tt)
                    (λ s p. start_running-Leaving name n s (p n e))))
        (λ s p. (p, λ n e. p.1)) (λ u s p. (p.0, p.1)) (λ s p. p.0)

  archive_started :
      (name job_id outcome : Text)
      → Triple (Busy name) (archive_failure tools name job_id outcome) (λ d. Idle) (InStore t)
  archive_started name job_id outcome =
      Triple-weaken
        (Triple-both (archive_failure-InStore tools t name job_id outcome) (
          Triple-all (λ s. tt)
            λ n. Triple-all (λ s. tt) λ e. archive_failure-NotRunning tools name job_id outcome n))
        (λ s p. p) (λ d s p. p) (λ s p. p.0)

  consider-InStore :
      (name : Text) (file : Option Text) (rest : Action M (Option (Text × HostJob)))
      → ends_with (codes ".yaml") name ≡ true
      → Triple Idle rest (λ claimed. InStore t) (InStore t)
      → Triple Idle (consider tools name file rest) (λ claimed. InStore t) (InStore t)
  unfolding consider consider_job
  consider-InStore name none rest yaml h = h
  consider-InStore name (some text) rest yaml h = parsed (parse_host_job tools.codec text)
    where
      parsed :
          (r : Result HostError HostJob)
          → Triple Idle (consider_job tools name r rest) (λ claimed. InStore t) (InStore t)
      parsed (err e) =
          Triple->>=
            (Triple->>= (start_job name yaml)
              (λ u. archive_started name (stem name) (codes "failed")))
            (λ d. h)
      parsed (ok job) =
          Triple-if job.approved
            (λ e. Triple->>= (start_job name yaml) (λ u. Triple-return _ (λ s p. p.0))) (λ e. h)

  claim_from-InStore :
      (names : List Text)
      → All (λ n. ends_with (codes ".yaml") n ≡ true) names
      → Triple Idle (claim_from tools names) (λ claimed. InStore t) (InStore t)
  unfolding claim_from
  claim_from-InStore [] yaml = Triple-return none (λ s p. p.0)
  claim_from-InStore (name ∷ names) yaml = Triple-with_store λ s.
      Triple-weaken
        (consider-InStore name (lookup name s.pending) (claim_from tools names) yaml.0
          (claim_from-InStore names yaml.1))
        (λ r p. p.1) (λ c r p. p) (λ r p. p)

  claim_next_job-InStore : Triple Idle (claim_next_job tools) (λ claimed. InStore t) (InStore t)
  unfolding claim_next_job
  claim_next_job-InStore = Triple-with_store λ s.
      Triple-weaken
        (claim_from-InStore _ (sort_names-All _ (yaml_names s.pending) (yaml_names-All s.pending)))
        (λ r p. p.1) (λ c r p. p) (λ r p. p)

  select_source-InStore :
      (job : HostJob) (admitted : Option AdmittedTarget)
      → Keeps (InStore t) (select_source tools job admitted)
  unfolding select_source prepare_frozen_source
  select_source-InStore job none =
      Triple->>= (Triple-call tools.current_head (λ v s machine p. p) (λ s machine p. p))
        λ head. Triple-refuse_if _ _ (λ s e p. p) (λ s p. p)
  select_source-InStore job (some (repository, commit, remote_url)) = Triple-with_store λ s.
      Triple->>=
        (Triple->>=
          (Triple->>= (Triple-refuse_if _ _ (λ r e p. p.1) (λ r p. p.1))
            (λ u. Triple-refuse_if _ _ (λ r e p. p) (λ r p. p)))
          (λ u.
            Triple-call (tools.fetch_declared_target repository commit remote_url)
              (λ v r machine p. p) (λ r machine p. p)))
        λ prepared.
          Triple->>= (Triple-refuse_if _ _ (λ r e p. p) (λ r p. p))
            (λ u. Triple-refuse_if _ _ (λ r e p. p) (λ r p. p))

  run_claimed-InStore :
      (name : Text) (job : HostJob) → Keeps (InStore t) (run_claimed tools name job)
  unfolding run_claimed
  run_claimed-InStore name job =
      Triple->>=
        (Triple->>=
          (Triple->>=
            (Triple->>=
              (Triple->>= (Triple-call tools.load_config (λ v s machine p. p) (λ s machine p. p))
                (λ u. select_source-InStore job job.admitted_target))
              (λ u.
                Triple-call (tools.load_specs job.manifest) (λ v s machine p. p)
                  (λ s machine p. p)))
            (λ u. Triple-call (tools.runner job) (λ v s machine p. p) (λ s machine p. p)))
          (λ u. archive_success-InStore tools t name job))
        (λ d. Triple-return _ (λ s p. p))

  process_claimed-InStore :
      (claimed : Option (Text × HostJob)) → Keeps (InStore t) (process_claimed tools claimed)
  unfolding process_claimed
  process_claimed-InStore none = Triple-return _ (λ s p. p)
  process_claimed-InStore (some (name, job)) =
      Triple-try_except (run_claimed-InStore name job) (λ s p. p)
        (λ e.
          Triple->>= (archive_failure-InStore tools t name job.job_id (codes "failed"))
            (λ d. Triple-return _ (λ s p. p)))

  pub process_one-InStore : Triple Idle (process_one tools) (λ r. InStore t) (InStore t)
  unfolding process_one
  process_one-InStore = Triple->>= claim_next_job-InStore process_claimed-InStore
