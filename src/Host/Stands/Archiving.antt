-- ===== src/Host/Stands/Archiving.antt =====
-- That `_archive_failure`, `_archive_success` and `_recover_interrupted_jobs` do not lose the text of a
-- job, wherever the host is killed.
use msos_autobuilder.Prelude.{
  ◌≡◌, refl, some, List, [], ◌∷◌, ◌++◌, Text, codes, lookup, Result, ok, err,
}
use msos_autobuilder.Host.Jobs.{HostJob, safe_id}
use msos_autobuilder.Host.Store.{empty_archive, HostStore, stem}
use msos_autobuilder.Host.Files.{
  file_operation, make_staging, copy_job, write_outcome, unlink_running,
}
use msos_autobuilder.Host.Feed.{in_dict}
use msos_autobuilder.Host.Tools.{HostTools, call}
use msos_autobuilder.Host.Archives.{
  release_archived_claim, note_refusal, release_claim_for_failure, failed_destination,
  move_if_running, archive_failure, archive_interrupted, recover_staging, recover_interrupted_jobs,
  archive_success,
}
use msos_autobuilder.Host.Triples.{
  Triple, Keeps, Triple-return, Triple-pure_call, Triple-with_store, Triple-operation,
  Triple-file_operation, Triple-call, Triple-token_hex, Triple-refuse_if, Triple->>=, Triple-if,
  Triple-weaken,
}
use msos_autobuilder.Host.Stands.{InStore}
use msos_autobuilder.Host.Stands.Operations.{
  IsCopied, make_staging-InStore, move_job-InStore, copy_job-InStore, write_outcome-InStore,
  write_outcome-IsCopied, unlink_running-InStore,
}
use msos_autobuilder.Host.Stands.Publishing.{
  publish_failed-InStore, publish_completed-InStore, annotate_failed-InStore,
}

module _ {M : Type 0} (tools : HostTools M) (t : Text) where
  note_refusal-InStore :
      (archive : Text) (answered : Result (Unit {0}) (Unit {0}))
      → Keeps (InStore t) (note_refusal tools archive answered)
  unfolding note_refusal
  note_refusal-InStore archive (ok done) = Triple-return tt (λ s p. p)
  note_refusal-InStore archive (err refused) =
      Triple-file_operation _ (λ s p. p)
        (λ s p. annotate_failed-InStore t s archive _ (λ a. refl) p)

  release_claim_for_failure-InStore :
      (archive : Text) → Keeps (InStore t) (release_claim_for_failure tools archive)
  unfolding release_claim_for_failure release_archived_claim
  release_claim_for_failure-InStore archive =
      Triple->>= (Triple-operation _ (λ s p. p) (λ s p. p)) (note_refusal-InStore archive)

  failed_destination-InStore : (id : Text) → Keeps (InStore t) (failed_destination tools id)
  unfolding failed_destination
  failed_destination-InStore id = Triple-with_store λ s.
      Triple-if (in_dict id s.failed)
        (λ e.
          Triple->>= (Triple-token_hex tools.token (λ v r n p. p.1))
            (λ token. Triple-return _ (λ r p. p)))
        (λ e. Triple-return id (λ r p. p.1))

  move_if_running-InStore :
      (name dir : Text)
      → Triple
          (λ s. InStore t s × (lookup dir s.staging ≡ some empty_archive))
          (move_if_running tools name dir)
          (λ u. InStore t)
          (InStore t)
  unfolding move_if_running
  move_if_running-InStore name dir = Triple-with_store λ s.
      Triple-if (in_dict name s.running)
        (λ e.
          Triple-file_operation _ (λ r p. p.1.0) (λ r p. move_job-InStore t r name dir p.1.1 p.1.0))
        (λ e. Triple-return tt (λ r p. p.1.0))

  pub archive_failure-InStore :
      (name job_id outcome : Text) → Keeps (InStore t) (archive_failure tools name job_id outcome)
  unfolding archive_failure
  archive_failure-InStore name job_id outcome =
      Triple->>= (Triple-pure_call (safe_id job_id) (λ v s e p. p) (λ s p. p)) λ id.
        Triple->>= (failed_destination-InStore id) λ destination.
          Triple->>= (Triple-token_hex tools.token (λ v s n p. p)) λ token.
            let dir = codes "failure-" ++ id ++ codes "-" ++ token in
            Triple->>=
              (Triple->>=
                (Triple->>=
                  (Triple->>=
                    (Triple->>=
                      (Triple-file_operation (make_staging dir) (λ s p. p)
                        (λ s p. make_staging-InStore t s dir p))
                      (λ u. move_if_running-InStore name dir))
                    (λ u.
                      Triple-file_operation _ (λ s p. p)
                        (λ s p. write_outcome-InStore t s dir outcome p)))
                  (λ u.
                    Triple-file_operation _ (λ s p. p)
                      (λ s p. publish_failed-InStore t s dir destination p)))
                (λ u. release_claim_for_failure-InStore destination))
              (λ u. Triple-return destination (λ s p. p))

  archive_interrupted-InStore :
      (names : List Text) → Keeps (InStore t) (archive_interrupted tools names)
  unfolding archive_interrupted
  archive_interrupted-InStore [] = Triple-return tt (λ s p. p)
  archive_interrupted-InStore (name ∷ names) =
      Triple->>= (archive_failure-InStore name (stem name) (codes "interrupted"))
        (λ u. archive_interrupted-InStore names)

  recover_staging-InStore : (dirs : List Text) → Keeps (InStore t) (recover_staging tools dirs)
  unfolding recover_staging
  recover_staging-InStore [] = Triple-return tt (λ s p. p)
  recover_staging-InStore (dir ∷ dirs) =
      Triple->>= (Triple-token_hex tools.token (λ v s n p. p)) λ token.
        let destination = codes "archive-recovery-" ++ dir ++ codes "-" ++ token in
        Triple->>=
          (Triple->>=
            (Triple-file_operation _ (λ s p. p)
              (λ s p. publish_failed-InStore t s dir destination p))
            (λ u.
              Triple-file_operation _ (λ s p. p)
                (λ s p. annotate_failed-InStore t s destination _ (λ a. refl) p)))
          (λ u. recover_staging-InStore dirs)

  pub recover_interrupted_jobs-InStore : Keeps (InStore t) (recover_interrupted_jobs tools)
  unfolding recover_interrupted_jobs
  recover_interrupted_jobs-InStore = Triple-with_store λ s.
      Triple->>=
        (Triple-weaken (archive_interrupted-InStore _) (λ r p. p.1) (λ u r p. p) (λ r p. p))
        (λ u.
          Triple-with_store
            λ r. Triple-weaken (recover_staging-InStore _) (λ r p. p.1) (λ u r p. p) (λ r p. p))

  abbrev CopyHeld : Text → Text → HostStore M → Type 0
  CopyHeld name dir s = InStore t s × IsCopied name dir s

  collect-CopyHeld :
      (name dir : Text) (job : HostJob)
      → Triple
          (CopyHeld name dir)
          (call (tools.collect_patches job))
          (λ u. CopyHeld name dir)
          (InStore t)
  collect-CopyHeld name dir job = Triple-call _ same (λ r machine p. p.0)
    where
      same :
          (u : Unit {0}) (r : HostStore M) (machine : M)
          → CopyHeld name dir r
          → CopyHeld name dir (record r { machine = machine })
      same u r machine (p, copy) =
          (p, record { archive = copy.archive; staged = copy.staged; same = copy.same })

  report-CopyHeld :
      (name dir outcome : Text)
      → Triple
          (CopyHeld name dir)
          (file_operation (write_outcome dir outcome))
          (λ u. CopyHeld name dir)
          (InStore t)
  report-CopyHeld name dir outcome =
      Triple-file_operation _ (λ r p. p.0) (λ r p. write_outcome-IsCopied t r name dir outcome p)

  unlink-CopyHeld :
      (name dir : Text)
      → Triple
          (CopyHeld name dir)
          (file_operation (unlink_running name))
          (λ u. InStore t)
          (InStore t)
  unlink-CopyHeld name dir =
      Triple-file_operation _ (λ r p. p.0) (λ r p. unlink_running-InStore t r name dir p.1 p.0)

  pub archive_success-InStore :
      (name : Text) (job : HostJob) → Keeps (InStore t) (archive_success tools name job)
  unfolding archive_success
  archive_success-InStore name job = Triple-with_store λ s.
      Triple->>=
        (Triple->>=
          (Triple-refuse_if (in_dict job.job_id s.completed) _ (λ r e p. p.1) (λ r p. p.1))
          (λ u. Triple-token_hex tools.token (λ v r n p. p)))
        λ token.
          let dir = codes "success-" ++ job.job_id ++ codes "-" ++ token in
          Triple->>=
            (Triple->>=
              (Triple->>=
                (Triple->>=
                  (Triple->>=
                    (Triple->>=
                      (Triple-file_operation (make_staging dir) (λ r p. p)
                        (λ r p. make_staging-InStore t r dir p))
                      (λ u.
                        Triple-file_operation (copy_job name dir) (λ r p. p.0)
                          (λ r p. copy_job-InStore t r name dir p.1 p.0)))
                    (λ u. collect-CopyHeld name dir job))
                  (λ u. report-CopyHeld name dir (codes "completed")))
                (λ u. unlink-CopyHeld name dir))
              (λ u.
                Triple-file_operation _ (λ r p. p)
                  (λ r p. publish_completed-InStore t r dir job.job_id p)))
            (λ u. Triple-return job.job_id (λ r p. p))
