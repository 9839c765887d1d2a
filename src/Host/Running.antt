-- ===== src/Host/Running.antt =====
-- What the operations of src/msos_autobuilder/persistent_host.py do to the running directory: an
-- archived job leaves it, and recovery empties it.
pub mod Recovery
use msos_autobuilder.Prelude.{
  ◌≡◌, refl, sym, subst, ◌∙◌, none, List, [], ◌∷◌, ◌++◌, Text, codes, Dict, lookup, remove,
  lookup-remove, lookup-insert, ◌==◌, ==_iff, Option-cases, Bool-cases, Result, ok, err, true,
  false, inl, inr, ◌⊎◌, arith, text_mem,
}
use msos_autobuilder.Text.{ends_with}
use msos_autobuilder.Host.Jobs.{safe_id}
use msos_autobuilder.Host.Store.{
  Process, returned, Archive, Action, HostStore, stem, sort_names, yaml_names,
}
use msos_autobuilder.Host.Store.Sorting.{sort_names-mem, yaml_names-mem}
use msos_autobuilder.Host.Files.{
  Change, file_operation, make_staging, move_job, write_outcome, publish_failed, annotate_failed,
  start_running, write_pending, make_failed,
}
use msos_autobuilder.Host.Feed.{in_dict}
use msos_autobuilder.Host.Tools.{HostTools}
use msos_autobuilder.Host.Archives.{
  release_archived_claim, note_refusal, release_claim_for_failure, failed_destination,
  move_if_running, archive_failure, archive_interrupted, recover_staging, recover_interrupted_jobs,
}
use msos_autobuilder.Host.Triples.{
  Post, Cond, Triple-nothing, Triple, Keeps, Settles, Triple-return, Triple-pure_call,
  Triple-with_store, Triple-operation, Triple-file_operation, Triple-token_hex, Triple->>=,
  Triple-if, Triple-weaken, Settles-weaken, Triple-all,
}

-- A change that leaves the running directory as it is.
abbrev pub SameRunning : {M : Type 0} → Change M → Type 0
SameRunning {M = M} change = (s : HostStore M) → Settles (λ r. r.running ≡ s.running) (change s)

removed :
    (name n : Text) (d : Dict Text)
    → (lookup n d ≡ none) ⊎ ((name == n) ≡ true)
    → lookup n (remove name d) ≡ none
removed name n d (inl e) = rw (lookup-remove, e) (ground arith)
removed name n d (inr e) = rw (lookup-remove, e) refl

module _ {M : Type 0} where
  pub make_staging-SameRunning : (dir : Text) → SameRunning {M = M} (make_staging dir)
  unfolding make_staging
  make_staging-SameRunning dir s = ground arith

  pub write_outcome-SameRunning :
      (dir outcome : Text) → SameRunning {M = M} (write_outcome dir outcome)
  unfolding write_outcome
  write_outcome-SameRunning dir outcome s = ground arith

  pub publish_failed-SameRunning : (dir to : Text) → SameRunning {M = M} (publish_failed dir to)
  unfolding publish_failed
  publish_failed-SameRunning dir to s = ground arith

  pub make_failed-SameRunning : (dir : Text) → SameRunning {M = M} (make_failed dir)
  unfolding make_failed
  make_failed-SameRunning dir s = ground arith

  pub write_pending-SameRunning : (name text : Text) → SameRunning {M = M} (write_pending name text)
  unfolding write_pending
  write_pending-SameRunning name text s = refl

  pub annotate_failed-SameRunning :
      (dir : Text) (change : Archive → Archive) → SameRunning {M = M} (annotate_failed dir change)
  unfolding annotate_failed
  annotate_failed-SameRunning dir change s = ground arith

  -- Nothing is claimed where the action does not return.
  pub forget :
      {A : Type 0} {P E : Cond M} {Q : A → Cond M} {action : Action M A}
      → Triple P action Q E
      → Triple P action Q (λ s. Unit {0})
  forget h = Triple-weaken h (λ s p. p) (λ v s p. p) (λ s p. tt)

  pub same_running :
      (C : Dict Text → Type 0) (change : Change M)
      → SameRunning change
      → Keeps (λ s. C s.running) (file_operation change)
  same_running C change same =
      Triple-file_operation change (λ s p. p)
        (λ s p. Settles-weaken (change s) (λ r e. subst C (sym e) p) (same s))

  -- A name that the running directory does not hold.
  abbrev pub NotRunning : Text → HostStore M → Type 0
  NotRunning n s = lookup n s.running ≡ none

  -- No job file is in the running directory.
  abbrev pub IsVacant : HostStore M → Type 0
  IsVacant s = (n : Text) → ends_with (codes ".yaml") n ≡ true → NotRunning n s

  -- Nor does it once another job has left, and the job itself.
  abbrev pub Leaving : Text → Text → HostStore M → Type 0
  Leaving name n s = (lookup n s.running ≡ none) ⊎ ((name == n) ≡ true)

  pub move_job-NotRunning :
      (name dir n : Text) (s : HostStore M)
      → Leaving name n s
      → Settles (NotRunning n) (move_job name dir s)
  unfolding move_job
  move_job-NotRunning name dir n s h = ground (arith, removed name n s.running)

  pub start_running-Leaving :
      (name n : Text) (s : HostStore M)
      → NotRunning n s
      → Settles (Leaving name n) (start_running name s)
  unfolding start_running
  start_running-Leaving name n s h = elim (Option-cases (lookup name s.pending)) [
    | inl e ↦ rw (start_running, e) tt
    | inr (text, e) ↦
        rw (start_running, e)
          (elim (Bool-cases (name == n)) [
            | inl same ↦ inr same
            | inr other ↦ inl (rw (lookup-insert, other) h)
          ])
  ]

  pub absent_leaves :
      (name n : Text) (s : HostStore M)
      → in_dict name s.running ≡ false
      → Leaving name n s
      → NotRunning n s
  absent_leaves name n s e (inl h) = h
  absent_leaves name n s e (inr h) = ground (arith, ==_iff name n)
