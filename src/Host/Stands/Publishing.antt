-- ===== src/Host/Stands/Publishing.antt =====
-- That moving archives to the failed and the completed ones, and noting in them, does not lose the text
-- of a job.
use msos_autobuilder.Prelude.{
  ◌≡◌, none, some, Text, lookup, insert, remove, inl, inr, Option-cases, ◌∙◌,
}
use msos_autobuilder.Host.Store.{Archive, empty_archive, HostStore}
use msos_autobuilder.Host.Files.{publish_failed, publish_completed, annotate_failed, make_failed}
use msos_autobuilder.Host.Triples.{Settles}
use msos_autobuilder.Host.Stands.{
  Occurs-insert, Occurs-insert_other, Occurs-update, Occurs-remove, Stands, waits, runs, is_staged,
  is_completed, is_failed, InStore, Stands-failed,
}

module _ {M : Type 0} (t : Text) (s : HostStore M) where
  published_failed :
      (dir destination : Text) (archive : Archive)
      → lookup dir s.staging ≡ some archive
      → lookup destination s.failed ≡ none
      → InStore t s
      → Stands t s.pending s.running
          (remove dir s.staging)
          s.completed
          (insert destination archive s.failed)
  published_failed dir destination archive found absent (is_staged h) =
      elim (Occurs-remove _ dir archive s.staging found h) [
        | inl here ↦ is_failed (Occurs-insert _ destination archive s.failed here)
        | inr other ↦ is_staged other
      ]
  published_failed dir destination archive found absent (is_failed h) =
      is_failed (Occurs-insert_other _ destination archive s.failed absent h)
  published_failed dir destination archive found absent (waits h) = waits h
  published_failed dir destination archive found absent (runs h) = runs h
  published_failed dir destination archive found absent (is_completed h) = is_completed h

  pub publish_failed-InStore :
      (dir destination : Text)
      → InStore t s
      → Settles (InStore t) (publish_failed dir destination s)
  unfolding publish_failed
  publish_failed-InStore dir destination h = elim (Option-cases (lookup dir s.staging)) [
    | inl e ↦ rw (publish_failed, e) tt
    | inr (archive, e) ↦ elim (Option-cases (lookup destination s.failed)) [
      | inr (existing, taken) ↦ rw (publish_failed, e, taken) tt
      | inl absent ↦
          rw (publish_failed, e, absent) (published_failed dir destination archive e absent h)
    ]
  ]

  published_completed :
      (dir destination : Text) (archive : Archive)
      → lookup dir s.staging ≡ some archive
      → lookup destination s.completed ≡ none
      → InStore t s
      → Stands t s.pending s.running
          (remove dir s.staging)
          (insert destination archive s.completed)
          s.failed
  published_completed dir destination archive found absent (is_staged h) =
      elim (Occurs-remove _ dir archive s.staging found h) [
        | inl here ↦ is_completed (Occurs-insert _ destination archive s.completed here)
        | inr other ↦ is_staged other
      ]
  published_completed dir destination archive found absent (is_completed h) =
      is_completed (Occurs-insert_other _ destination archive s.completed absent h)
  published_completed dir destination archive found absent (waits h) = waits h
  published_completed dir destination archive found absent (runs h) = runs h
  published_completed dir destination archive found absent (is_failed h) = is_failed h

  pub publish_completed-InStore :
      (dir destination : Text)
      → InStore t s
      → Settles (InStore t) (publish_completed dir destination s)
  unfolding publish_completed
  publish_completed-InStore dir destination h = elim (Option-cases (lookup dir s.staging)) [
    | inl e ↦ rw (publish_completed, e) tt
    | inr (archive, e) ↦ elim (Option-cases (lookup destination s.completed)) [
      | inr (existing, taken) ↦ rw (publish_completed, e, taken) tt
      | inl absent ↦
          rw (publish_completed, e, absent) (published_completed dir destination archive e absent h)
    ]
  ]

  pub annotate_failed-InStore :
      (dir : Text) (change : Archive → Archive)
      → ((a : Archive) → (change a).job ≡ a.job)
      → InStore t s
      → Settles (InStore t) (annotate_failed dir change s)
  unfolding annotate_failed
  annotate_failed-InStore dir change same h = elim (Option-cases (lookup dir s.failed)) [
    | inl e ↦ rw (annotate_failed, e) tt
    | inr (archive, e) ↦
        rw (annotate_failed, e)
          (Stands-failed t s.pending s.running s.staging s.completed s.failed _
            (Occurs-update _ dir archive _ s.failed e (λ k. same archive ∙ k)) h)
  ]

  pub make_failed-InStore : (dir : Text) → InStore t s → Settles (InStore t) (make_failed dir s)
  unfolding make_failed
  make_failed-InStore dir h = elim (Option-cases (lookup dir s.failed)) [
    | inr (archive, e) ↦ rw (make_failed, e) tt
    | inl e ↦
        rw (make_failed, e)
          (Stands-failed t s.pending s.running s.staging s.completed s.failed _
            (Occurs-insert_other _ dir empty_archive s.failed e) h)
  ]
