-- ===== src/Host/Running/Recovery.antt =====
-- That an archived job leaves the running directory of the host, and that recovery empties it.
use msos_autobuilder.Prelude.{
  ◌≡◌, sym, subst, ◌∙◌, none, List, [], ◌∷◌, ◌++◌, Text, codes, lookup, ◌==◌, Option-cases,
  Bool-cases, Result, ok, err, true, false, inl, inr, ◌⊎◌, arith, text_mem,
}
use msos_autobuilder.Text.{ends_with}
use msos_autobuilder.Host.Jobs.{safe_id}
use msos_autobuilder.Host.Store.{Process, returned, HostStore, stem, sort_names, yaml_names}
use msos_autobuilder.Host.Store.Sorting.{sort_names-mem, yaml_names-mem}
use msos_autobuilder.Host.Feed.{in_dict}
use msos_autobuilder.Host.Tools.{HostTools}
use msos_autobuilder.Host.Archives.{
  release_archived_claim, note_refusal, release_claim_for_failure, failed_destination,
  move_if_running, archive_failure, archive_interrupted, recover_staging, recover_interrupted_jobs,
}
use msos_autobuilder.Host.Triples.{
  Post, Triple-nothing, Triple, Keeps, Triple-return, Triple-pure_call, Triple-with_store,
  Triple-operation, Triple-file_operation, Triple-token_hex, Triple->>=, Triple-if, Triple-weaken,
  Triple-all,
}
use msos_autobuilder.Host.Running.{
  make_staging-SameRunning, write_outcome-SameRunning, publish_failed-SameRunning,
  annotate_failed-SameRunning, forget, same_running, NotRunning, IsVacant, Leaving,
  move_job-NotRunning, absent_leaves,
}

module _ {M : Type 0} (tools : HostTools M) where
  note_refusal-NotRunning :
      (archive n : Text) (answered : Result (Unit {0}) (Unit {0}))
      → Keeps (NotRunning n) (note_refusal tools archive answered)
  unfolding note_refusal
  note_refusal-NotRunning archive n (ok done) = Triple-return tt (λ s p. p)
  note_refusal-NotRunning archive n (err refused) =
      same_running (λ d. lookup n d ≡ none) _ (annotate_failed-SameRunning archive _)

  failed_destination-Leaving :
      (name n id : Text) → Keeps (Leaving name n) (failed_destination tools id)
  unfolding failed_destination
  failed_destination-Leaving name n id = Triple-with_store λ s.
      Triple-if (in_dict id s.failed)
        (λ e.
          Triple->>= (Triple-token_hex tools.token (λ v r n p. p.1))
            (λ token. Triple-return _ (λ r p. p)))
        (λ e. Triple-return id (λ r p. p.1))

  move_if_running-NotRunning :
      (name dir n : Text)
      → Triple (Leaving name n) (move_if_running tools name dir) (λ u. NotRunning n) (λ s. Unit {0})
  unfolding move_if_running
  move_if_running-NotRunning name dir n = Triple-with_store λ s.
      Triple-if (in_dict name s.running)
        (λ e. Triple-file_operation _ (λ r p. tt) (λ r p. move_job-NotRunning name dir n r p.1))
        (λ e. Triple-return tt (λ r p.
          absent_leaves name n r (subst (λ v. in_dict name v.running ≡ false) (sym p.0) e) p.1))

  -- The archived job leaves the running directory, and no other comes in.
  pub archive_failure-NotRunning :
      (name job_id outcome n : Text)
      → Triple
          (Leaving name n)
          (archive_failure tools name job_id outcome)
          (λ d. NotRunning n)
          (λ s. Unit {0})
  unfolding archive_failure release_claim_for_failure release_archived_claim
  archive_failure-NotRunning name job_id outcome n =
      Triple->>= (Triple-pure_call (safe_id job_id) (λ v s e p. p) (λ s p. tt)) λ id.
        Triple->>= (forget (failed_destination-Leaving name n id)) λ destination.
          Triple->>= (Triple-token_hex tools.token (λ v s n p. p)) λ token.
            let dir = codes "failure-" ++ id ++ codes "-" ++ token in
            Triple->>=
              (Triple->>=
                (Triple->>=
                  (Triple->>=
                    (Triple->>=
                      (forget (
                        same_running (λ d. (lookup n d ≡ none) ⊎ ((name == n) ≡ true)) _
                          (make_staging-SameRunning dir)))
                      (λ u. move_if_running-NotRunning name dir n))
                    (λ u. forget (
                      same_running (λ d. lookup n d ≡ none) _
                        (write_outcome-SameRunning dir outcome))))
                  (λ u. forget (
                    same_running (λ d. lookup n d ≡ none) _
                      (publish_failed-SameRunning dir destination))))
                (λ u.
                  Triple->>= (Triple-operation _ (λ s p. tt) (λ s p. p))
                    (λ r. forget (note_refusal-NotRunning destination n r))))
              (λ u. Triple-return destination (λ s p. p))

  -- One of the interrupted jobs is archived; the others follow.
  archive_first :
      (name n : Text) (names : List Text)
      → Triple
          (λ s. NotRunning n s ⊎ (text_mem n (name ∷ names) ≡ true))
          (archive_failure tools name (stem name) (codes "interrupted"))
          (λ d s. NotRunning n s ⊎ (text_mem n names ≡ true))
          (λ s. Unit {0})
  unfolding text_mem
  archive_first name n names = elim (Bool-cases (text_mem n names)) [
    | inl later ↦ Triple-weaken Triple-nothing (λ s p. p) (λ d s p. inr later) (λ s p. p)
    | inr gone ↦
        Triple-weaken (archive_failure-NotRunning name (stem name) (codes "interrupted") n)
          (λ s p. elim p [ inl h ↦ inl h | inr h ↦ inr (ground arith) ]) (λ d s p. inl p) (λ s p. p)
  ]

  archive_interrupted-NotRunning :
      (names : List Text) (n : Text)
      → Triple
          (λ s. NotRunning n s ⊎ (text_mem n names ≡ true))
          (archive_interrupted tools names)
          (λ u. NotRunning n)
          (λ s. Unit {0})
  unfolding archive_interrupted text_mem
  archive_interrupted-NotRunning [] n =
      Triple-return tt λ s p. elim p [ inl h ↦ h | inr h ↦ absurd (ground arith) ]
  archive_interrupted-NotRunning (name ∷ names) n =
      Triple->>= (archive_first name n names) (λ d. archive_interrupted-NotRunning names n)

  recover_staging-NotRunning :
      (dirs : List Text) (n : Text)
      → Triple (NotRunning n) (recover_staging tools dirs) (λ u. NotRunning n) (λ s. Unit {0})
  unfolding recover_staging
  recover_staging-NotRunning [] n = Triple-return tt (λ s p. p)
  recover_staging-NotRunning (dir ∷ dirs) n =
      Triple->>= (Triple-token_hex tools.token (λ v s n p. p)) λ token.
        let destination = codes "archive-recovery-" ++ dir ++ codes "-" ++ token in
        Triple->>=
          (Triple->>=
            (forget (
              same_running (λ d. lookup n d ≡ none) _ (publish_failed-SameRunning dir destination)))
            (λ u. forget (
              same_running (λ d. lookup n d ≡ none) _ (annotate_failed-SameRunning destination _))))
          (λ u. recover_staging-NotRunning dirs n)

  globbed :
      (n : Text) (s : HostStore M)
      → ends_with (codes ".yaml") n ≡ true
      → NotRunning n s ⊎ (text_mem n (sort_names (yaml_names s.running)) ≡ true)
  globbed n s e = elim (Option-cases (lookup n s.running)) [
    | inl absent ↦ inl absent
    | inr (text, there) ↦
        inr (sort_names-mem n (yaml_names s.running) ∙ yaml_names-mem n s.running text there e)
  ]

  -- Recovery that returns has emptied the running directory.
  pub recover_interrupted_jobs-IsVacant :
      Triple (λ s. Unit {0}) (recover_interrupted_jobs tools) (λ u. IsVacant) (λ s. Unit {0})
  unfolding recover_interrupted_jobs
  recover_interrupted_jobs-IsVacant =
      Triple-weaken (Triple-all (λ s. tt) λ n. Triple-all (λ s. tt) (λ e. one n e)) (λ s p n e. tt)
        (λ u s p. p) (λ s p. p)
    where
      one :
          (n : Text)
          → ends_with (codes ".yaml") n ≡ true
          → Triple
              (λ s. Unit {0})
              (recover_interrupted_jobs tools)
              (λ u. NotRunning n)
              (λ s. Unit {0})
      one n e = Triple-with_store λ s.
          Triple->>=
            (Triple-weaken (archive_interrupted-NotRunning _ n)
              (λ r p.
                subst
                  (λ v. NotRunning n r ⊎ (text_mem n (sort_names (yaml_names v.running)) ≡ true))
                  p.0 (globbed n r e))
              (λ u r p. p) (λ r p. p))
            (λ u. Triple-with_store λ r.
              Triple-weaken (recover_staging-NotRunning _ n) (λ v p. p.1) (λ u v p. p) (λ v p. p))

  -- When recovery returns, no job file is left in the running directory.
  pub recover_interrupted_jobs-running :
      (process after : Process M) (name : Text)
      → recover_interrupted_jobs tools process ≡ (returned tt, after)
      → ends_with (codes ".yaml") name ≡ true
      → lookup name after.store.running ≡ none
  recover_interrupted_jobs-running process after name e yaml =
      subst (Post (λ u. IsVacant) (λ s. Unit {0})) e
        (recover_interrupted_jobs-IsVacant.holds process tt) name yaml
