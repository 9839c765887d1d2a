-- ===== src/Host/Feed.antt =====
-- How jobs enter the queue of src/msos_autobuilder/persistent_host.py: `enqueue_manifest`,
-- `approve_pending_job` and the import of the git feed.
use msos_autobuilder.Prelude.{
  Bool, true, false, not, ◌||◌, Option, none, some, List, [], ◌∷◌, ◌++◌, Text, codes, ◌==◌, Dict,
  lookup, insert, if◌then◌else◌, Result, ok, err,
}
use msos_autobuilder.Text.{is_empty}
use msos_autobuilder.Json.{Json, boolean, integer, string, object, Fields, no_fields, field}
use msos_autobuilder.Host.Jobs.{
  Codec, HostError, HostJob, invalid_yaml, not_a_mapping, job_exists, job_not_found,
  bad_feed_ledger, safe_id, validate_manifest, parse_host_job,
}
use msos_autobuilder.Host.Store.{
  FeedLedger, no_ledger, invalid_ledger, ledger_of, HostStore, Action, return, pure_call, refuse_if,
  ◌>>=◌, ◌>>◌, with_store, sort_names, yaml_names,
}
use msos_autobuilder.Host.Files.{
  Change, file_operation, token_hex, write_pending, annotate_failed, make_failed,
}
use msos_autobuilder.Host.Tools.{HostTools, call}

abbrev pub in_dict {ℓ} : {V : Type ℓ} → Text → Dict V → Bool
in_dict key d = elim (lookup key d) [ none ↦ false | some value ↦ true ]

abbrev pub yaml_file : Text → Text
yaml_file job_id = job_id ++ codes ".yaml"

-- `_job_exists`
unfoldable pub is_known : {M : Type 0} → Text → HostStore M → Bool
is_known job_id store =
    in_dict (yaml_file job_id) store.pending
    || in_dict (yaml_file job_id) store.running
    || in_dict job_id store.completed
    || in_dict job_id store.failed

-- `raw[key] = value`
unfoldable pub set_field : Text → Json → Fields → Fields
set_field key value no_fields = field key value no_fields
set_field key value (field k v rest) =
    let later = field k v (set_field key value rest) in
    if k == key then field k value rest else later

abbrev optional : Bool → Text → Json → Fields
optional present key value = if present then field key value no_fields else no_fields

abbrev append_fields : Fields → Fields → Fields
append_fields no_fields more = more
append_fields (field k v rest) more = field k v (append_fields rest more)

-- The job file that `enqueue_manifest` writes.
unfoldable pub new_payload :
    (job_id requested_by now : Text) → Bool → (expected_source_head : Option Text) → Fields → Fields
new_payload job_id requested_by now approved expected manifest =
    field (codes "version") (integer 1) (
      field (codes "job_id") (string job_id) (
        field (codes "approved") (boolean approved) (
          field (codes "publication_enabled") (boolean false) (
            field (codes "requested_by") (string requested_by) (
              field (codes "submitted_at") (string now) (
                field (codes "manifest") (object manifest) (
                  append_fields (optional approved (codes "approved_at") (string now))
                    (elim expected [
                      | none ↦ no_fields
                      | some head ↦
                          optional (not (is_empty head)) (codes "expected_source_head")
                            (string head)
                    ]))))))))

unfoldable pub load_yaml : Codec → Text → Result HostError Json
load_yaml yaml text = elim (yaml.safe_load text) [ none ↦ err invalid_yaml | some value ↦ ok value ]

abbrev mapping : Json → Result HostError Fields
mapping (object raw) = ok raw
mapping _ = err not_a_mapping

abbrev found : Option Text → Result HostError Text
found none = err job_not_found
found (some text) = ok text

abbrev pub write_feed_ledger : {M : Type 0} → Dict Text → Change M
write_feed_ledger ledger store = ok (record store { feed_ledger = ledger_of ledger })

module _ {M : Type 0} (tools : HostTools M) where
  unfoldable pub enqueue_manifest :
      (manifest_text job_id : Text)
      → (approved : Bool) → (requested_by : Text) → (expected_source_head : Option Text)
      → Action M Text
  unfolding is_known new_payload load_yaml
  enqueue_manifest manifest_text job_id approved requested_by expected =
      pure_call (safe_id job_id) >>= λ id. with_store λ store.
        refuse_if (is_known id store) job_exists
        >> pure_call (load_yaml tools.codec manifest_text)
        >>= λ raw. pure_call (validate_manifest raw) >>= λ manifest.
            file_operation (
              write_pending (yaml_file id) (
                tools.codec.safe_dump (
                  object (
                    new_payload id requested_by (tools.timestamp store.machine) approved expected
                      manifest))))
            >> return (yaml_file id)

  unfoldable pub approve_pending_job : Text → Action M Text
  unfolding load_yaml set_field
  approve_pending_job job_id = pure_call (safe_id job_id) >>= λ id. with_store λ store.
      pure_call (found (lookup (yaml_file id) store.pending)) >>= λ text.
      pure_call (load_yaml tools.codec text) >>= λ value. pure_call (mapping value) >>= λ raw.
      let approved =
        set_field (codes "approved_at") (string (tools.timestamp store.machine))
          (set_field (codes "approved") (boolean true) raw) in
      let candidate = tools.codec.safe_dump (object approved) in
      pure_call (parse_host_job tools.codec candidate) >>= λ job.
      file_operation (write_pending (yaml_file id) candidate) >> return (yaml_file id)

  -- `_load_feed_ledger`
  unfoldable pub load_feed_ledger : FeedLedger → Result HostError (Dict Text)
  load_feed_ledger no_ledger = ok []
  load_feed_ledger invalid_ledger = err bad_feed_ledger
  load_feed_ledger (ledger_of entries) = ok entries

  unfoldable pub record_feed_conflict : (job_id previous current : Text) → Action M (Unit {0})
  record_feed_conflict job_id previous current = token_hex tools.token >>= λ token.
      let destination = job_id ++ codes "-feed-conflict-" ++ token in
      file_operation (make_failed destination)
      >> file_operation (
          annotate_failed destination
            (λ archive. record archive { feed_conflict = some (previous, current) }))

  -- `previous = ledger.get(job_id)` and `if previous`
  unfoldable pub seen_hash : Text → Dict Text → Option Text
  seen_hash job_id ledger = elim (lookup job_id ledger) [
    | none ↦ none
    | some previous ↦ if is_empty previous then none else some previous
  ]

  abbrev pub Imports : Type 0
  Imports = Dict Text × List Text

  -- An approved job that parsed, with what the loop does with it: nothing when the ledger has it, but
  -- for the note of a conflict when its content changed.
  unfoldable pub import_seen : Text → HostJob → Option Text → Imports → Action M Imports
  unfolding is_known
  import_seen text job (some previous) (ledger, imported) =
      if previous == job.content_sha256
      then return (ledger, imported)
      else (record_feed_conflict job.job_id previous job.content_sha256
          >> return (ledger, imported))
  import_seen text job none (ledger, imported) = with_store λ store.
      if is_known job.job_id store
      then return (insert job.job_id job.content_sha256 ledger, imported)
      else (file_operation (write_pending (yaml_file job.job_id) text)
          >> return (insert job.job_id job.content_sha256 ledger, imported ++ job.job_id ∷ []))

  -- What does not parse, or is not approved, is passed over.
  unfoldable pub import_parsed : Text → Result HostError HostJob → Imports → Action M Imports
  unfolding import_seen seen_hash
  import_parsed text (err malformed) imports = return imports
  import_parsed text (ok job) imports =
      if job.approved
      then import_seen text job (seen_hash job.job_id imports.0) imports
      else return imports

  -- One file of the feed.
  unfoldable pub import_file : Option Text → Imports → Action M Imports
  unfolding import_parsed
  import_file none imports = return imports
  import_file (some text) imports = import_parsed text (parse_host_job tools.codec text) imports

  unfoldable pub import_files : List Text → Dict Text → Imports → Action M Imports
  unfolding import_file
  import_files [] files imports = return imports
  import_files (name ∷ names) files imports =
      import_file (lookup name files) imports >>= import_files names files

  unfoldable pub import_feed : Dict Text → Action M (List Text)
  unfolding import_files load_feed_ledger
  import_feed files = with_store λ store.
      pure_call (load_feed_ledger store.feed_ledger) >>= λ ledger.
      import_files (sort_names (yaml_names files)) files (ledger, []) >>= λ imports.
      file_operation (write_feed_ledger imports.0) >> return imports.1

  unfoldable pub import_fetched : Option (Dict Text) → Action M (List Text)
  unfolding import_feed
  import_fetched none = return []
  import_fetched (some files) = import_feed files

  -- `sync_git_job_feed` of a host that has a feed
  unfoldable pub sync_git_job_feed : Action M (List Text)
  unfolding import_fetched
  sync_git_job_feed = call tools.fetch_feed >>= import_fetched
