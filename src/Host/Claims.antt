-- ===== src/Host/Claims.antt =====
-- What `_claim_next_job` of src/msos_autobuilder/persistent_host.py claims.
use msos_autobuilder.Prelude.{
  ◌≡◌, refl, ap, subst, none, some, Option, List, [], ◌∷◌, Text, lookup, Result, ok, err, true,
  lookup-insert_same,
}
use msos_autobuilder.Host.Jobs.{HostError, HostJob, Codec, parse_host_job}
use msos_autobuilder.Host.Store.{HostStore, Action, Process, returned}
use msos_autobuilder.Host.Files.{start_running}
use msos_autobuilder.Host.Tools.{HostTools}
use msos_autobuilder.Host.Process.{consider_job, consider, claim_from, claim_next_job}
use msos_autobuilder.Host.Triples.{
  Triple, Settles, Triple-return, Triple-with_store, Triple-file_operation, Triple->>=, Triple-if,
  Triple-weaken, Triple-nothing, Post,
}

-- What was claimed is the running file of its name, and that file is an approved job.
abbrev pub IsApproved : {M : Type 0} → Codec → Option (Text × HostJob) → HostStore M → Type 0
IsApproved codec none s = Unit {0}
IsApproved codec (some (name, job)) s =
    (text : Text) × (lookup name s.running ≡ some text)
    × (parse_host_job codec text ≡ ok job)
    × (job.approved ≡ true)

module _ {M : Type 0} (tools : HostTools M) where
  abbrev Claims : Action M (Option (Text × HostJob)) → Type 0
  Claims action = Triple (λ s. Unit {0}) action (IsApproved tools.codec) (λ s. Unit {0})

  start-running :
      (name text : Text) (s : HostStore M)
      → lookup name s.pending ≡ some text
      → Settles (λ r. lookup name r.running ≡ some text) (start_running name s)
  unfolding start_running
  start-running name text s e = rw (start_running, e) (lookup-insert_same name text s.running)

  consider-Claims :
      (name : Text) (file : Option Text) (rest : Action M (Option (Text × HostJob)))
      → Claims rest
      → Triple
          (λ s. lookup name s.pending ≡ file)
          (consider tools name file rest)
          (IsApproved tools.codec)
          (λ s. Unit {0})
  unfolding consider consider_job
  consider-Claims name none rest h = Triple-weaken h (λ s p. tt) (λ c s p. p) (λ s p. p)
  consider-Claims name (some text) rest h = parsed (parse_host_job tools.codec text) refl
    where
      parsed :
          (r : Result HostError HostJob)
          → parse_host_job tools.codec text ≡ r
          → Triple
              (λ s. lookup name s.pending ≡ some text)
              (consider_job tools name r rest)
              (IsApproved tools.codec)
              (λ s. Unit {0})
      parsed (err e) same = Triple->>= Triple-nothing (λ d. h)
      parsed (ok job) same =
          Triple-if job.approved
            (λ e.
              Triple->>=
                (Triple-file_operation (start_running name) (λ s p. tt)
                  (λ s p. start-running name text s p))
                (λ u. Triple-return _ (λ s p. (text, p, same, e))))
            (λ e. Triple-weaken h (λ s p. tt) (λ c s p. p) (λ s p. p))

  claim_from-Claims : (names : List Text) → Claims (claim_from tools names)
  unfolding claim_from
  claim_from-Claims [] = Triple-return none (λ s p. tt)
  claim_from-Claims (name ∷ names) = Triple-with_store λ s.
      Triple-weaken
        (consider-Claims name (lookup name s.pending) (claim_from tools names)
          (claim_from-Claims names))
        (λ r p. ap (λ v. lookup name v.pending) p.0) (λ c r p. p) (λ r p. p)

  claim_next_job-Claims : Claims (claim_next_job tools)
  unfolding claim_next_job
  claim_next_job-Claims =
      Triple-with_store λ s. Triple-weaken (claim_from-Claims _) (λ r p. tt) (λ c r p. p) (λ r p. p)

  -- What a claim that returns has claimed is the file of its name in the running directory, which
  -- parses as the claimed job, and that job is approved.
  pub claim_next_job-IsApproved :
      (process after : Process M) (claimed : Option (Text × HostJob))
      → claim_next_job tools process ≡ (returned claimed, after)
      → IsApproved tools.codec claimed after.store
  claim_next_job-IsApproved process after claimed e =
      subst (Post (IsApproved tools.codec) (λ s. Unit {0})) e
        (claim_next_job-Claims.holds process tt)
