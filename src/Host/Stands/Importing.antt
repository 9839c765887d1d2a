-- ===== src/Host/Stands/Importing.antt =====
-- That the import of the feed does not lose the text of a job, nor touches the running directory, also
-- where it raises or the host is killed.
use msos_autobuilder.Prelude.{
  ◌≡◌, refl, sym, subst, none, some, Option, List, [], ◌∷◌, ◌++◌, Text, codes, Dict, lookup, Result,
  ok, err, false, ◌==◌, arith,
}
use msos_autobuilder.Host.Jobs.{HostError, HostJob, parse_host_job}
use msos_autobuilder.Host.Store.{HostStore, sort_names, yaml_names}
use msos_autobuilder.Host.Files.{Change, write_pending}
use msos_autobuilder.Host.Tools.{HostTools}
use msos_autobuilder.Host.Feed.{
  yaml_file, is_known, record_feed_conflict, seen_hash, import_seen, import_parsed, import_file,
  import_files, import_feed, import_fetched, sync_git_job_feed, load_feed_ledger, write_feed_ledger,
}
use msos_autobuilder.Host.Triples.{
  Keeps, Settles, Triple-return, Triple-pure_call, Triple-with_store, Triple-file_operation,
  Triple-call, Triple-token_hex, Triple->>=, Triple-if, Settles-both, Settles-weaken,
}
use msos_autobuilder.Host.Running.{
  SameRunning, make_failed-SameRunning, annotate_failed-SameRunning, write_pending-SameRunning,
}
use msos_autobuilder.Host.Stands.{InStore}
use msos_autobuilder.Host.Stands.Operations.{write_pending-InStore}
use msos_autobuilder.Host.Stands.Publishing.{make_failed-InStore, annotate_failed-InStore}

pub unknown_waits_not :
    {M : Type 0} (id : Text) (s : HostStore M)
    → is_known id s ≡ false
    → lookup (yaml_file id) s.pending ≡ none
unfolding is_known
unknown_waits_not id s h = ground arith

module _ {M : Type 0} (tools : HostTools M) (t : Text) (C : Dict Text → Type 0) where
  abbrev pub KeptWith : HostStore M → Type 0
  KeptWith s = InStore t s × C s.running

  kept_change :
      (change : Change M) (s : HostStore M)
      → SameRunning change
      → C s.running
      → Settles (InStore t) (change s)
      → Settles KeptWith (change s)
  kept_change change s same c h =
      Settles-both (InStore t) (λ r. C r.running) (change s) h
        (Settles-weaken (change s) (λ r e. subst C (sym e) c) (same s))

  record_feed_conflict-KeptWith :
      (id previous current : Text) → Keeps KeptWith (record_feed_conflict tools id previous current)
  unfolding record_feed_conflict
  record_feed_conflict-KeptWith id previous current =
      Triple->>= (Triple-token_hex tools.token (λ v s n p. p)) λ token.
        let destination = id ++ codes "-feed-conflict-" ++ token in
        Triple->>=
          (Triple-file_operation _ (λ s p. p)
            (λ s p.
              kept_change _ s (make_failed-SameRunning destination) p.1
                (make_failed-InStore t s destination p.0)))
          (λ u.
            Triple-file_operation _ (λ s p. p)
              (λ s p.
                kept_change _ s (annotate_failed-SameRunning destination _) p.1
                  (annotate_failed-InStore t s destination _ (λ a. refl) p.0)))

  import_seen-KeptWith :
      (text : Text) (job : HostJob) (seen : Option Text) (imports : Dict Text × List Text)
      → Keeps KeptWith (import_seen tools text job seen imports)
  unfolding import_seen
  import_seen-KeptWith text job (some previous) (ledger, imported) =
      Triple-if (previous == job.content_sha256) (λ e. Triple-return _ (λ s p. p))
        (λ e.
          Triple->>= (record_feed_conflict-KeptWith job.job_id previous job.content_sha256)
            (λ u. Triple-return _ (λ s p. p)))
  import_seen-KeptWith text job none (ledger, imported) = Triple-with_store λ s.
      Triple-if (is_known job.job_id s) (λ e. Triple-return _ (λ r p. p.1))
        (λ e.
          Triple->>=
            (Triple-file_operation (write_pending (yaml_file job.job_id) text) (λ r p. p.1)
              (λ r p.
                kept_change _ r (write_pending-SameRunning (yaml_file job.job_id) text) p.1.1 (
                  write_pending-InStore t r (yaml_file job.job_id) text
                    (unknown_waits_not job.job_id r
                      (subst (λ v. is_known job.job_id v ≡ false) (sym p.0) e))
                    p.1.0)))
            (λ u. Triple-return _ (λ r p. p)))

  import_file-KeptWith :
      (file : Option Text) (imports : Dict Text × List Text)
      → Keeps KeptWith (import_file tools file imports)
  unfolding import_file import_parsed
  import_file-KeptWith none imports = Triple-return _ (λ s p. p)
  import_file-KeptWith (some text) imports = parsed (parse_host_job tools.codec text)
    where
      parsed : (r : Result HostError HostJob) → Keeps KeptWith (import_parsed tools text r imports)
      parsed (err e) = Triple-return _ (λ s p. p)
      parsed (ok job) =
          Triple-if job.approved
            (λ e. import_seen-KeptWith text job (seen_hash tools job.job_id imports.0) imports)
            (λ e. Triple-return _ (λ s p. p))

  import_files-KeptWith :
      (names : List Text) (files : Dict Text) (imports : Dict Text × List Text)
      → Keeps KeptWith (import_files tools names files imports)
  unfolding import_files
  import_files-KeptWith [] files imports = Triple-return _ (λ s p. p)
  import_files-KeptWith (name ∷ names) files imports =
      Triple->>= (import_file-KeptWith (lookup name files) imports)
        (import_files-KeptWith names files)

  import_fetched-KeptWith :
      (fetched : Option (Dict Text)) → Keeps KeptWith (import_fetched tools fetched)
  unfolding import_fetched import_feed
  import_fetched-KeptWith none = Triple-return _ (λ s p. p)
  import_fetched-KeptWith (some files) = Triple-with_store λ s.
      Triple->>=
        (Triple-pure_call (load_feed_ledger tools s.feed_ledger) (λ v r e p. p.1) (λ r p. p.1))
        λ ledger.
          Triple->>= (import_files-KeptWith (sort_names (yaml_names files)) files (ledger, []))
            λ imports.
              Triple->>= (Triple-file_operation (write_feed_ledger imports.0) (λ r p. p) (λ r p. p))
                (λ u. Triple-return _ (λ r p. p))

  pub sync_git_job_feed-KeptWith : Keeps KeptWith (sync_git_job_feed tools)
  unfolding sync_git_job_feed
  sync_git_job_feed-KeptWith =
      Triple->>= (Triple-call tools.fetch_feed (λ v s machine p. p) (λ s machine p. p))
        import_fetched-KeptWith
