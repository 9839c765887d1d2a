-- ===== src/Host/Seen.antt =====
-- The ledger of the feed in src/msos_autobuilder/persistent_host.py: what `sync_git_job_feed` does with a
-- job that the ledger has.
pub mod Ledger
use msos_autobuilder.Prelude.{
  ok_inj, ◌≡◌, ◌∙◌, refl, sym, ap, subst, none, some, Option, List, [], ◌∷◌, ◌++◌, Text, codes,
  Dict, lookup, insert, lookup-insert, Result, ok, err, false, Bool-cases, inl, inr, ◌==◌, ==_iff,
  text_mem, arith,
}
use msos_autobuilder.Text.{drop_end}
use msos_autobuilder.Text.Laws.{drop_end-append}
use msos_autobuilder.Host.Jobs.{HostError, HostJob, parse_host_job}
use msos_autobuilder.Host.Store.{
  Archive, Action, FeedLedger, ledger_of, HostStore, Process, returned, sort_names, yaml_names,
}
use msos_autobuilder.Host.Files.{file_operation, make_failed, annotate_failed, write_pending}
use msos_autobuilder.Host.Tools.{HostTools}
use msos_autobuilder.Host.Feed.{
  yaml_file, is_known, record_feed_conflict, seen_hash, import_seen, import_parsed, import_file,
  import_files, import_feed, import_fetched, sync_git_job_feed, load_feed_ledger, write_feed_ledger,
}
use msos_autobuilder.Host.Triples.{
  Triple-given, Post, Triple, Keeps, Settles, Triple-return, Triple-pure_call, Triple-with_store,
  Triple-file_operation, Triple-call, Triple-token_hex, Triple->>=, Triple-if, Triple-weaken,
}

yaml_file_inj : (a b : Text) → yaml_file a ≡ yaml_file b → a ≡ b
yaml_file_inj a b e =
    sym (drop_end-append a (codes ".yaml")) ∙ ap (drop_end 5) e ∙ drop_end-append b (codes ".yaml")

other_yaml_file : (a b : Text) → (a == b) ≡ false → (yaml_file a == yaml_file b) ≡ false
other_yaml_file a b h = elim (Bool-cases (yaml_file a == yaml_file b)) [
  | inr other ↦ other
  | inl same ↦
      let e = yaml_file_inj a b ((==_iff (yaml_file a) (yaml_file b)).0 same) in
      ground (arith, ==_iff a b)
]

module _ {M : Type 0} (tools : HostTools M) (id hash : Text) (x : Option Text)
    (f : FeedLedger) where
  -- The job's entry is in the ledger that is being read, and it is not among the imported ones.
  abbrev Passed : Dict Text × List Text → Type 0
  Passed imports = (seen_hash tools id imports.0 ≡ some hash) × (text_mem id imports.1 ≡ false)

  -- The file of the ledger and the pending file of the job are as they were.
  abbrev Untouched : HostStore M → Type 0
  Untouched s = (s.feed_ledger ≡ f) × (lookup (yaml_file id) s.pending ≡ x)

  make_failed-Untouched :
      (dir : Text) (s : HostStore M) → Untouched s → Settles Untouched (make_failed dir s)
  unfolding make_failed
  make_failed-Untouched dir s h = ground arith

  write_other-Untouched :
      (other text : Text) (s : HostStore M)
      → (other == id) ≡ false
      → Untouched s
      → Settles Untouched (write_pending (yaml_file other) text s)
  unfolding write_pending
  write_other-Untouched other text s e h = (h.0, rw (lookup-insert, other_yaml_file other id e) h.1)

  insert_other-Passed :
      (other value : Text) (ledger : Dict Text) (imported : List Text)
      → (other == id) ≡ false
      → Passed (ledger, imported)
      → Passed (insert other value ledger, imported)
  unfolding seen_hash
  insert_other-Passed other value ledger imported e h = (rw (seen_hash, lookup-insert, e) h.0, h.1)

  append_other-Passed :
      (other : Text) (ledger : Dict Text) (imported : List Text)
      → (other == id) ≡ false
      → Passed (ledger, imported)
      → Passed (ledger, imported ++ other ∷ [])
  unfolding text_mem
  append_other-Passed other ledger imported e h = (h.0, appended imported h.1)
    where
      appended : (xs : List Text) → text_mem id xs ≡ false → text_mem id (xs ++ other ∷ []) ≡ false
      appended [] k = ground arith
      appended (y ∷ ys) k = ground (arith, appended ys)

  unseen_is_other :
      (other : Text) (imports : Dict Text × List Text)
      → seen_hash tools other imports.0 ≡ none
      → Passed imports
      → (other == id) ≡ false
  unseen_is_other other imports unseen h = elim (Bool-cases (other == id)) [
    | inr e ↦ e
    | inl same ↦ let e = (==_iff other id).0 same in absurd cc
  ]

  annotate_failed-Untouched :
      (dir : Text) (change : Archive → Archive) (s : HostStore M)
      → Untouched s
      → Settles Untouched (annotate_failed dir change s)
  unfolding annotate_failed
  annotate_failed-Untouched dir change s h = ground arith

  conflict-Untouched :
      (other previous current : Text)
      → Keeps Untouched (record_feed_conflict tools other previous current)
  unfolding record_feed_conflict
  conflict-Untouched other previous current =
      Triple->>= (Triple-token_hex tools.token (λ v s n p. p)) λ token.
        let destination = other ++ codes "-feed-conflict-" ++ token in
        Triple->>=
          (Triple-file_operation (make_failed destination) (λ s p. p)
            (λ s p. make_failed-Untouched destination s p))
          (λ u.
            Triple-file_operation _ (λ s p. p) (λ s p. annotate_failed-Untouched destination _ s p))

  -- Through one step of the import the job stays passed and untouched.
  abbrev Passes : Action M (Dict Text × List Text) → Type 0
  Passes action = Triple Untouched action (λ imports s. Passed imports × Untouched s) Untouched

  import_seen-Passes :
      (text : Text) (job : HostJob) (seen : Option Text) (imports : Dict Text × List Text)
      → seen_hash tools job.job_id imports.0 ≡ seen
      → Passed imports
      → Passes (import_seen tools text job seen imports)
  unfolding import_seen
  import_seen-Passes text job (some previous) (ledger, imported) e h =
      Triple-if (previous == job.content_sha256) (λ same. Triple-return _ (λ s p. (h, p)))
        (λ differs.
          Triple->>= (conflict-Untouched job.job_id previous job.content_sha256)
            (λ u. Triple-return _ (λ s p. (h, p))))
  import_seen-Passes text job none (ledger, imported) e h =
      let other = unseen_is_other job.job_id (ledger, imported) e h in
      let added = insert_other-Passed job.job_id job.content_sha256 ledger imported other h in
      Triple-with_store λ s.
        Triple-if (is_known job.job_id s) (λ known. Triple-return _ (λ r p. (added, p.1)))
          (λ new.
            Triple->>=
              (Triple-file_operation (write_pending (yaml_file job.job_id) text) (λ r p. p.1)
                (λ r p. write_other-Untouched job.job_id text r other p.1))
              (λ u.
                Triple-return _
                  (λ r p. (append_other-Passed job.job_id _ imported other added, p))))

  import_file-Passes :
      (file : Option Text) (imports : Dict Text × List Text)
      → Passed imports
      → Passes (import_file tools file imports)
  unfolding import_file import_parsed
  import_file-Passes none imports h = Triple-return _ (λ s p. (h, p))
  import_file-Passes (some text) imports h = parsed (parse_host_job tools.codec text)
    where
      parsed : (r : Result HostError HostJob) → Passes (import_parsed tools text r imports)
      parsed (err e) = Triple-return _ (λ s p. (h, p))
      parsed (ok job) =
          Triple-if job.approved
            (λ e. import_seen-Passes text job (seen_hash tools job.job_id imports.0) imports refl h)
            (λ e. Triple-return _ (λ s p. (h, p)))

  pub import_files-Passes :
      (names : List Text) (files : Dict Text) (imports : Dict Text × List Text)
      → Triple
          (λ s. Passed imports × Untouched s)
          (import_files tools names files imports)
          (λ imports s. Passed imports × Untouched s)
          Untouched
  unfolding import_files
  import_files-Passes [] files imports = Triple-return _ (λ s p. p)
  import_files-Passes (name ∷ names) files imports = Triple-given λ h.
      Triple->>= (import_file-Passes (lookup name files) imports h)
        (import_files-Passes names files)
