-- ===== src/Host/Stands/Operations.antt =====
-- That the file operations of the host do not lose the text of a job: each is stated on its change,
-- with what has to hold before.
use msos_autobuilder.Prelude.{
  ◌≡◌, none, some, Text, lookup, insert, remove, inl, inr, Option-cases, ap, ◌∙◌,
  lookup-insert_same,
}
use msos_autobuilder.Host.Store.{Archive, empty_archive, HostStore}
use msos_autobuilder.Host.Files.{
  write_pending, start_running, make_staging, move_job, copy_job, write_outcome, unlink_running,
}
use msos_autobuilder.Host.Triples.{Settles}
use msos_autobuilder.Host.Stands.{
  Occurs-insert, Occurs-insert_other, Occurs-update, Occurs-remove, Stands, waits, runs, is_staged,
  is_completed, is_failed, InStore, Stands-staging,
}

-- The archive that is staged in a directory holds the running job of a name.
pub record IsCopied {M : Type 0} (name dir : Text) (s : HostStore M) : Type 0 where
  pub archive : Archive
  pub staged : lookup dir s.staging ≡ some archive
  pub same : (text : Text) → lookup name s.running ≡ some text → archive.job ≡ some text

module _ {M : Type 0} (t : Text) (s : HostStore M) where
  pub write_pending-InStore :
      (name text : Text)
      → lookup name s.pending ≡ none
      → InStore t s
      → Settles (InStore t) (write_pending name text s)
  unfolding write_pending
  write_pending-InStore name text absent (waits h) =
      waits (Occurs-insert_other _ name text s.pending absent h)
  write_pending-InStore name text absent (runs h) = runs h
  write_pending-InStore name text absent (is_staged h) = is_staged h
  write_pending-InStore name text absent (is_completed h) = is_completed h
  write_pending-InStore name text absent (is_failed h) = is_failed h

  started :
      (name text : Text)
      → lookup name s.pending ≡ some text
      → lookup name s.running ≡ none
      → InStore t s
      → Stands t (remove name s.pending) (insert name text s.running) s.staging s.completed s.failed
  started name text found absent (waits h) = elim (Occurs-remove _ name text s.pending found h) [
    | inl here ↦ runs (Occurs-insert _ name text s.running here)
    | inr other ↦ waits other
  ]
  started name text found absent (runs h) =
      runs (Occurs-insert_other _ name text s.running absent h)
  started name text found absent (is_staged h) = is_staged h
  started name text found absent (is_completed h) = is_completed h
  started name text found absent (is_failed h) = is_failed h

  pub start_running-InStore :
      (name : Text)
      → lookup name s.running ≡ none
      → InStore t s
      → Settles (InStore t) (start_running name s)
  unfolding start_running
  start_running-InStore name absent h = elim (Option-cases (lookup name s.pending)) [
    | inl e ↦ rw (start_running, e) tt
    | inr (text, e) ↦ rw (start_running, e) (started name text e absent h)
  ]

  -- The directory that is made is an archive without a job.
  pub make_staging-InStore :
      (dir : Text)
      → InStore t s
      → Settles
          (λ r. InStore t r × (lookup dir r.staging ≡ some empty_archive))
          (make_staging dir s)
  unfolding make_staging
  make_staging-InStore dir h = elim (Option-cases (lookup dir s.staging)) [
    | inr (archive, e) ↦ rw (make_staging, e) tt
    | inl e ↦
        rw (make_staging, e)
          (
            Stands-staging t s.pending s.running s.staging s.completed s.failed _
                (Occurs-insert_other _ dir empty_archive s.staging e) h,
            lookup-insert_same dir empty_archive s.staging,
          )
  ]

  moved :
      (name dir text : Text)
      → lookup name s.running ≡ some text
      → lookup dir s.staging ≡ some empty_archive
      → InStore t s
      → Stands t s.pending
          (remove name s.running)
          (insert dir (record empty_archive { job = some text }) s.staging)
          s.completed
          s.failed
  moved name dir text found e (runs h) = elim (Occurs-remove _ name text s.running found h) [
    | inl here ↦ is_staged (Occurs-insert _ dir _ s.staging (ap some here))
    | inr other ↦ runs other
  ]
  moved name dir text found e (is_staged h) =
      is_staged (Occurs-update _ dir empty_archive _ s.staging e (λ k. absurd cc) h)
  moved name dir text found e (waits h) = waits h
  moved name dir text found e (is_completed h) = is_completed h
  moved name dir text found e (is_failed h) = is_failed h

  pub move_job-InStore :
      (name dir : Text)
      → lookup dir s.staging ≡ some empty_archive
      → InStore t s
      → Settles (InStore t) (move_job name dir s)
  unfolding move_job
  move_job-InStore name dir e h = elim (Option-cases (lookup name s.running)) [
    | inl absent ↦ rw (move_job, absent) tt
    | inr (text, found) ↦ rw (move_job, found, e) (moved name dir text found e h)
  ]

  pub copy_job-InStore :
      (name dir : Text)
      → lookup dir s.staging ≡ some empty_archive
      → InStore t s
      → Settles (λ r. InStore t r × IsCopied name dir r) (copy_job name dir s)
  unfolding copy_job
  copy_job-InStore name dir e h = elim (Option-cases (lookup name s.running)) [
    | inl absent ↦ rw (copy_job, absent) tt
    | inr (text, found) ↦
        rw (copy_job, found, e)
          (
            Stands-staging t s.pending s.running s.staging s.completed s.failed _
                (Occurs-update _ dir empty_archive _ s.staging e (λ k. absurd cc)) h,
            record {
              archive = record empty_archive { job = some text };
              staged = lookup-insert_same dir _ s.staging;
              same = λ other there. cc;
            },
          )
  ]

  pub write_outcome-InStore :
      (dir outcome : Text) → InStore t s → Settles (InStore t) (write_outcome dir outcome s)
  unfolding write_outcome
  write_outcome-InStore dir outcome h = elim (Option-cases (lookup dir s.staging)) [
    | inl e ↦ rw (write_outcome, e) tt
    | inr (archive, e) ↦
        rw (write_outcome, e)
          (Stands-staging t s.pending s.running s.staging s.completed s.failed _
            (Occurs-update _ dir archive _ s.staging e (λ k. k)) h)
  ]

  pub write_outcome-IsCopied :
      (name dir outcome : Text)
      → InStore t s × IsCopied name dir s
      → Settles (λ r. InStore t r × IsCopied name dir r) (write_outcome dir outcome s)
  unfolding write_outcome
  write_outcome-IsCopied name dir outcome (h, copy) =
      rw (write_outcome, copy.staged)
        (
          Stands-staging t s.pending s.running s.staging s.completed s.failed _
              (Occurs-update _ dir copy.archive _ s.staging copy.staged (λ k. k)) h,
          record {
            archive = record copy.archive { outcome = some outcome };
            staged = lookup-insert_same dir _ s.staging;
            same = copy.same;
          },
        )

  unlinked :
      (name dir text : Text)
      → lookup name s.running ≡ some text
      → IsCopied name dir s
      → InStore t s
      → Stands t s.pending (remove name s.running) s.staging s.completed s.failed
  unlinked name dir text found copy (runs h) = elim (Occurs-remove _ name text s.running found h) [
    | inl here ↦ is_staged (dir, copy.archive, copy.staged, copy.same text found ∙ ap some here)
    | inr other ↦ runs other
  ]
  unlinked name dir text found copy (waits h) = waits h
  unlinked name dir text found copy (is_staged h) = is_staged h
  unlinked name dir text found copy (is_completed h) = is_completed h
  unlinked name dir text found copy (is_failed h) = is_failed h

  -- The running job is unlinked only when it has been copied.
  pub unlink_running-InStore :
      (name dir : Text)
      → IsCopied name dir s
      → InStore t s
      → Settles (InStore t) (unlink_running name s)
  unfolding unlink_running
  unlink_running-InStore name dir copy h = elim (Option-cases (lookup name s.running)) [
    | inl absent ↦ rw (unlink_running, absent) tt
    | inr (text, found) ↦ rw (unlink_running, found) (unlinked name dir text found copy h)
  ]
