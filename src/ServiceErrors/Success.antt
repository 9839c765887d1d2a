-- ===== src/ServiceErrors/Success.antt =====
-- The success evidence of src/msos_autobuilder/service_error_lifecycle.py, and the recovery of a publisher
-- whose ledger has no usable time.
use msos_autobuilder.Prelude.{
  ℕ, Bool, true, false, not, ◌&&◌, Option, none, some, Text, codes, ltb, leb, all, if◌then◌else◌,
  Result, ok, err, raise_if, map_err, ◌>>=◌, ◌>>◌,
}
use msos_autobuilder.Text.{is_empty, is_space, strip}
use msos_autobuilder.Json.{
  Json, string, array, object, no_items, Fields, no_fields, field, elements, get, json_eq, is_none,
}
use msos_autobuilder.ServiceErrors.Records.{
  Builtins, File, Reason, success_other_service, success_not_recorded, success_no_finished_at,
  success_not_later, success_other_release, success_other_generation, success_other_job,
  success_missing, no_terminal_time, published_after_marker, no_generation, history_incomplete,
  current_generation_unresolved, marker_not_older, not_a_string_list, job_not_listed,
  terminal_evidence_not_mapping, Check, of_option, is_string_where, load_json_mapping, parse_utc,
  listed, associated_matches,
}
use msos_autobuilder.ServiceErrors.Ledgers.{job_entry, publisher_ledger_identity_is_coherent}

abbrev pub require_some {ℓ} : {A : Type ℓ} → Option A → Reason → Result Reason A
require_some none reason = err reason
require_some (some a) reason = ok a

abbrev pub no_raw : Fields → Bool
no_raw no_fields = true
no_raw (field k v rest) = false

abbrev pub is_set : Option Text → Bool
is_set none = false
is_set (some t) = not (is_empty t)

abbrev pub names_other_job : Option Text → Fields → Bool
names_other_job none raw = false
names_other_job (some job_id) raw = not (associated_matches raw job_id)

unfoldable pub string_collection_contains : Json → Text → Check
unfolding all strip
string_collection_contains (array no_items) job_id = err not_a_string_list
string_collection_contains (array items) job_id = do
  raise_if (not (all (is_string_where (λ s. not (is_empty (strip is_space s)))) (elements items)))
      not_a_string_list
  raise_if (not (listed job_id (array items))) job_not_listed
string_collection_contains _ job_id = err not_a_string_list

-- What both readers of the success evidence ask of it, in this order.
unfoldable pub require_success : Builtins → Fields → Text → ℕ → Json → Check
unfolding get json_eq
require_success python raw service marker_recorded release = do
  raise_if (not (json_eq (get (codes "service") raw) (string service))) success_other_service
  raise_if (not (json_eq (get (codes "result") raw) (string (codes "success"))))
      success_not_recorded
  finished ← require_some (parse_utc python (get (codes "finished_at") raw)) success_no_finished_at
  raise_if (leb finished marker_recorded) success_not_later
  raise_if (not (json_eq (get (codes "release_commit") raw) release)) success_other_release

-- `(False, None)` is `err none`.
unfoldable pub success_supersedes :
    Builtins
    → File
    → (service : Text) → ℕ
    → Option Text
    → (release : Json) → (job_id : Option Text) → Result (Option Reason) (Unit {0})
unfolding require_success load_json_mapping
success_supersedes python path service marker_recorded generation release job_id = do
  raw ← map_err some (load_json_mapping path)
  raise_if (no_raw raw) none
  map_err some (require_success python raw service marker_recorded release)
  raise_if
      (is_set generation && not (json_eq (get (codes "generation_id") raw) (of_option generation)))
      (some success_other_generation)
  raise_if (names_other_job job_id raw) (some success_other_job)

-- Timeout after the draft: a time before the marker is allowed, a later one is not the legacy case.
unfoldable pub require_published_before : Builtins → Json → ℕ → Check
require_published_before python published_at marker_recorded =
    if is_none published_at then ok tt else (do
      at ← require_some (parse_utc python published_at) no_terminal_time
      raise_if (ltb marker_recorded at) published_after_marker)

-- The marker is of an older generation than the one that runs, which is returned.
unfoldable pub require_older_generation :
    Builtins → (marker witness : Fields) → Option Text → (release : Json) → Result Reason Text
unfolding get json_eq
require_older_generation python marker witness generation release = do
  current ← require_some generation no_generation
  let marker_release = get (codes "release_commit") marker
  let marker_generation = get (codes "generation_id") marker
  raise_if (is_none marker_release) history_incomplete
  marker_started ←
      require_some (parse_utc python (get (codes "witness_started_at") marker)) history_incomplete
  raise_if (is_none marker_generation) history_incomplete
  raise_if (json_eq marker_release release && json_eq marker_generation (string current))
      current_generation_unresolved
  witness_started ←
      require_some (parse_utc python (get (codes "started_at") witness)) marker_not_older
  raise_if (leb witness_started marker_started) marker_not_older
  ok current

-- The publisher's success names the job twice, by the generation that runs.
unfoldable pub require_recovery : Builtins → File → ℕ → Json → (current job_id : Text) → Check
unfolding load_json_mapping require_success get json_eq
require_recovery python success_path marker_recorded release current job_id = do
  raw_success ← load_json_mapping success_path
  raise_if (no_raw raw_success) success_missing
  require_success python raw_success (codes "publisher") marker_recorded release
  raise_if (not (json_eq (get (codes "generation_id") raw_success) (string current)))
      success_other_generation
  string_collection_contains (get (codes "associated_jobs") raw_success) job_id
  (elim (get (codes "terminal_evidence") raw_success) [
    | object terminal_evidence ↦
        string_collection_contains (get (codes "verified_jobs") terminal_evidence) job_id
    | _ ↦ err terminal_evidence_not_mapping
  ])

unfoldable pub publisher_legacy_recovery_supersedes :
    Builtins
    → (ledger : Fields) → (success_path : File) → (marker : Fields) → (marker_recorded : ℕ)
    → (witness : Fields) → Option Text
    → (release : Json) → (job_id : Text) → Check
unfolding require_published_before require_older_generation require_recovery
publisher_legacy_recovery_supersedes python ledger success_path marker marker_recorded witness
      generation release job_id =
    do
      current ← require_older_generation python marker witness generation release
      entry ← job_entry job_id ledger
      require_published_before python (get (codes "published_at") entry) marker_recorded
      publisher_ledger_identity_is_coherent python entry marker
      require_recovery python success_path marker_recorded release current job_id
