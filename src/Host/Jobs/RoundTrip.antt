-- ===== src/Host/Jobs/RoundTrip.antt =====
-- What `enqueue_manifest` of src/msos_autobuilder/persistent_host.py writes is read back by
-- `parse_host_job` as the job that was asked for.
use msos_autobuilder.Host.Store.{
  HostStore, returned, pure_call, refuse_if, with_store, ◌>>=◌, after, operation,
}
use msos_autobuilder.Host.Files.{file_operation, write_pending}
use msos_autobuilder.Host.Tools.{HostTools}
use msos_autobuilder.Prelude.{
  if◌then◌else◌, ℕ, ◌≡◌, refl, none, some, [], ◌∷◌, Text, ok, Bool, true, false, ◌==◌, all, arith,
  lookup, lookup-insert_same,
}
use msos_autobuilder.Text.{is_space, strip, lstrip, rstrip, is_id_char}
use msos_autobuilder.Json.{object, get, find, json_eq, str_or_empty}
use msos_autobuilder.Host.Jobs.{
  loaded_job, is_alphanumeric, or_none, parse_target, parse_identity, source_head, admitted_for,
  Codec, HostJob, Manifest, is_id, safe_id, validate_manifest, is_disabled, approved_of,
  admitted_target_from_raw, parse_mapping, parse_host_job,
}
use msos_autobuilder.Host.Feed.{is_known, yaml_file, enqueue_manifest, load_yaml, new_payload}

id_char_is_not_space : (c : ℕ) → is_id_char c ≡ true → is_space c ≡ false
unfolding is_id_char is_space
id_char_is_not_space c h = ground arith

lstrip-id : (s : Text) → all is_id_char s ≡ true → lstrip is_space s ≡ s
unfolding lstrip all
lstrip-id [] h = refl
lstrip-id (c ∷ s) h = ground (arith, id_char_is_not_space c)

rstrip-id : (s : Text) → all is_id_char s ≡ true → rstrip is_space s ≡ s
unfolding rstrip all
rstrip-id [] h = refl
rstrip-id (c ∷ s) h = ground (arith, id_char_is_not_space c, rstrip-id s)

is_id-all : (s : Text) → is_id s ≡ true → all is_id_char s ≡ true
unfolding is_id is_alphanumeric is_id_char all
is_id-all [] h = absurd (ground arith)
is_id-all (c ∷ s) h = ground arith

strip-id : (s : Text) → is_id s ≡ true → strip is_space s ≡ s
unfolding strip
strip-id s h = rw (lstrip-id s (is_id-all s h)) (rstrip-id s (is_id-all s h))

safe_id-id : (s : Text) → is_id s ≡ true → safe_id s ≡ ok s
unfolding safe_id
safe_id-id s h = rw (strip-id s h, h) refl

module _ (yaml : Codec) where
  -- The job that a call of `enqueue_manifest` asks for.
  abbrev pub requested : (job_id requested_by now text : Text) → Bool → Manifest → HostJob
  requested job_id requested_by now text approved manifest = record {
    job_id = job_id;
    approved = approved;
    manifest = manifest;
    content_sha256 = yaml.sha256 text;
    requested_by = or_none yaml (strip is_space requested_by);
    submitted_at = or_none yaml (strip is_space now);
    approved_at = if approved then or_none yaml (strip is_space now) else none;
    expected_source_head = none;
    admitted_target = none;
  }

  parse-new_payload :
      (job_id requested_by now text : Text) (approved : Bool) (manifest : Manifest)
      → is_id job_id ≡ true
      → validate_manifest (object manifest) ≡ ok manifest
      → parse_mapping yaml text (new_payload job_id requested_by now approved none manifest)
        ≡ ok (requested job_id requested_by now text approved manifest)
  unfolding new_payload parse_mapping parse_target parse_identity get find json_eq is_disabled
      approved_of source_head admitted_target_from_raw admitted_for str_or_empty ◌==◌
  parse-new_payload job_id requested_by now text true manifest id valid =
      rw (valid, safe_id-id job_id id) refl
  parse-new_payload job_id requested_by now text false manifest id valid =
      rw (valid, safe_id-id job_id id) refl

module _ {M : Type 0} (tools : HostTools M) where
  -- Where the identifier is of the pattern and free, the manifest is valid, and YAML reads back
  -- what it wrote, a call of `enqueue_manifest` that is not killed, without an expected head,
  -- returns, and the file that it wrote parses as the job that was asked for.
  pub enqueue_manifest-parse_host_job :
      (store : HostStore M) (manifest_text job_id requested_by : Text) (approved : Bool)
      (manifest : Manifest)
      → is_id job_id ≡ true
      → is_known job_id store ≡ false
      → tools.codec.safe_load manifest_text ≡ some (object manifest)
      → validate_manifest (object manifest) ≡ ok manifest
      → (let payload = object (
            new_payload job_id requested_by
              (tools.timestamp store.machine)
              approved
              none
              manifest) in
          tools.codec.safe_load (tools.codec.safe_dump payload) ≡ some payload)
      → let answered =
          enqueue_manifest tools manifest_text job_id approved requested_by none
            (record { store = store; crash_in = none }) in
        (text : Text) × (answered.0 ≡ returned (yaml_file job_id))
        × (lookup (yaml_file job_id) answered.1.store.pending ≡ some text)
        × (parse_host_job tools.codec text
            ≡ ok (
                requested tools.codec job_id requested_by
                  (tools.timestamp store.machine)
                  text
                  approved
                  manifest))
  unfolding enqueue_manifest pure_call refuse_if with_store ◌>>=◌ after file_operation operation
      write_pending load_yaml parse_host_job loaded_job
  enqueue_manifest-parse_host_job store manifest_text job_id requested_by approved manifest id free
        loads valid round =
      let now = tools.timestamp store.machine in
      let text =
        tools.codec.safe_dump
          (object (new_payload job_id requested_by now approved none manifest)) in
      (
        text,
        rw (safe_id-id job_id id, pure_call, free, refuse_if, after, load_yaml, loads, valid) refl,
        rw (safe_id-id job_id id, pure_call, free, refuse_if, after, load_yaml, loads, valid)
            (lookup-insert_same (yaml_file job_id) text store.pending),
        rw round
            (parse-new_payload tools.codec job_id requested_by now text approved manifest id valid),
      )
