-- ===== src/Host/Seen/Ledger.antt =====
-- What `sync_git_job_feed` of the host does with a job that the ledger of the feed has.
use msos_autobuilder.Prelude.{
  ok_inj, ◌≡◌, ◌∙◌, refl, ap, subst, none, some, Option, List, [], Text, Dict, lookup, ok, false,
  text_mem,
}
use msos_autobuilder.Host.Store.{ledger_of, HostStore, Process, returned, sort_names, yaml_names}
use msos_autobuilder.Host.Files.{file_operation}
use msos_autobuilder.Host.Tools.{HostTools}
use msos_autobuilder.Host.Feed.{
  yaml_file, seen_hash, import_files, import_feed, import_fetched, sync_git_job_feed,
  load_feed_ledger, write_feed_ledger,
}
use msos_autobuilder.Host.Triples.{
  Triple-given, Post, Triple, Triple-return, Triple-pure_call, Triple-with_store,
  Triple-file_operation, Triple-call, Triple->>=, Triple-weaken,
}
use msos_autobuilder.Host.Seen.{import_files-Passes}

module _ {M : Type 0} (tools : HostTools M) (id hash : Text) (x : Option Text) where
  -- The ledger has the job, whose pending file is as it was.
  pub record IsSeen (s : HostStore M) : Type 0 where
    pub ledger : Dict Text
    pub is_ledger : s.feed_ledger ≡ ledger_of ledger
    pub seen : seen_hash tools id ledger ≡ some hash
    pub pending : lookup (yaml_file id) s.pending ≡ x

  loaded_seen :
      (s : HostStore M) (ledger : Dict Text)
      → IsSeen s
      → load_feed_ledger tools s.feed_ledger ≡ ok ledger
      → seen_hash tools id ledger ≡ some hash
  unfolding load_feed_ledger
  loaded_seen s ledger h e =
      let k : load_feed_ledger tools (ledger_of h.ledger) ≡ ok ledger =
        subst (λ f. load_feed_ledger tools f ≡ ok ledger) h.is_ledger e in
      subst (λ d. seen_hash tools id d ≡ some hash) (ok_inj h.ledger ledger _ refl k) h.seen

  still-IsSeen :
      (s : HostStore M)
      → IsSeen s
      → (r : HostStore M) → (r.feed_ledger ≡ s.feed_ledger) × (lookup (yaml_file id) r.pending ≡ x)
      → IsSeen r
  still-IsSeen s h r p = record {
    ledger = h.ledger;
    is_ledger = p.0 ∙ h.is_ledger;
    seen = h.seen;
    pending = p.1;
  }

  import_all :
      (files ledger : Dict Text) (s : HostStore M)
      → IsSeen s
      → seen_hash tools id ledger ≡ some hash
      → Triple
          (λ r. (r.feed_ledger ≡ s.feed_ledger) × (lookup (yaml_file id) r.pending ≡ x))
          (import_files tools (sort_names (yaml_names files)) files (ledger, []))
          (λ imports r.
            (seen_hash tools id imports.0 ≡ some hash) × (text_mem id imports.1 ≡ false) × IsSeen r)
          IsSeen
  unfolding text_mem
  import_all files ledger s h seen =
      Triple-weaken
        (import_files-Passes tools id hash x s.feed_ledger (sort_names (yaml_names files)) files
          (ledger, []))
        (λ r p. ((seen, refl), p)) (λ imports r p. (p.0.0, p.0.1, still-IsSeen s h r p.1))
        (still-IsSeen s h)

  write_ledger-IsSeen :
      (imports : Dict Text × List Text)
      → Triple
          (λ r.
            (seen_hash tools id imports.0 ≡ some hash) × (text_mem id imports.1 ≡ false) × IsSeen r)
          (file_operation (write_feed_ledger imports.0))
          (λ u r. (text_mem id imports.1 ≡ false) × IsSeen r)
          IsSeen
  write_ledger-IsSeen imports =
      Triple-file_operation _ (λ r p. p.2)
        (λ r p.
          (p.1, record { ledger = imports.0; is_ledger = refl; seen = p.0; pending = p.2.pending }))

  import_fetched-IsSeen :
      (fetched : Option (Dict Text))
      → Triple IsSeen
          (import_fetched tools fetched)
          (λ imported s. (text_mem id imported ≡ false) × IsSeen s)
          IsSeen
  unfolding import_fetched import_feed text_mem
  import_fetched-IsSeen none = Triple-return _ (λ s p. (refl, p))
  import_fetched-IsSeen (some files) = Triple-with_store λ s.
      Triple-weaken
        (Triple-given λ h.
          Triple->>=
            (Triple-pure_call (load_feed_ledger tools s.feed_ledger)
              (λ ledger r e p. (loaded_seen s ledger h e, p)) (still-IsSeen s h))
            λ ledger. Triple-given λ seen.
              Triple->>= (import_all files ledger s h seen) λ imports.
                Triple->>= (write_ledger-IsSeen imports) (λ u. Triple-return _ (λ r p. p)))
        (λ r p. (subst IsSeen p.0 p.1, (ap (λ v. v.feed_ledger) p.0, p.1.pending)))
        (λ imported r p. p) (λ r p. p)

  sync_git_job_feed-IsSeen :
      Triple IsSeen
        (sync_git_job_feed tools)
        (λ imported s. (text_mem id imported ≡ false) × IsSeen s)
        IsSeen
  unfolding sync_git_job_feed
  sync_git_job_feed-IsSeen =
      Triple->>= (Triple-call tools.fetch_feed (λ v s machine p. same s machine p) same)
        import_fetched-IsSeen
    where
      same : (s : HostStore M) (machine : M) → IsSeen s → IsSeen (record s { machine = machine })
      same s machine p = record {
        ledger = p.ledger;
        is_ledger = p.is_ledger;
        seen = p.seen;
        pending = p.pending;
      }

-- When the ledger has a hash for a job, an import that returns has not imported it, has left its
-- pending file as it was, and has kept the hash, whatever the feed has now.
pub sync_git_job_feed-seen_hash :
    {M : Type 0} (tools : HostTools M) (id hash : Text) (ledger : Dict Text)
    (process after : Process M) (imported : List Text)
    → process.store.feed_ledger ≡ ledger_of ledger
    → seen_hash tools id ledger ≡ some hash
    → sync_git_job_feed tools process ≡ (returned imported, after)
    → (text_mem id imported ≡ false)
      × (lookup (yaml_file id) after.store.pending ≡ lookup (yaml_file id) process.store.pending)
      × ((kept : Dict Text) × (after.store.feed_ledger ≡ ledger_of kept)
          × (seen_hash tools id kept ≡ some hash))
sync_git_job_feed-seen_hash tools id hash ledger process after imported is_ledger seen e =
    let x = lookup (yaml_file id) process.store.pending in
    let before : IsSeen tools id hash x process.store = record {
      ledger = ledger;
      is_ledger = is_ledger;
      seen = seen;
      pending = refl;
    } in
    let (fresh, kept) =
      subst
        (Post (λ imported s. (text_mem id imported ≡ false) × IsSeen tools id hash x s)
          (IsSeen tools id hash x))
        e ((sync_git_job_feed-IsSeen tools id hash x).holds process before) in
    (fresh, kept.pending, (kept.ledger, kept.is_ledger, kept.seen))
