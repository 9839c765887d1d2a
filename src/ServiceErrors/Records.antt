-- ===== src/ServiceErrors/Records.antt =====
-- The helpers of src/msos_autobuilder/service_error_lifecycle.py that read JSON files, times, digests
-- and identities.
use msos_autobuilder.Prelude.{
  ℕ, Bool, false, ◌&&◌, ◌||◌, Option, none, some, ◌++◌, Text, codes, nat_eq, leb, length, all, any,
  if◌then◌else◌, Result, ok, err,
}
use msos_autobuilder.Text.{is_space, strip, ends_with, drop_end, is_empty}
use msos_autobuilder.Json.{
  Json, null, string, array, object, Fields, no_fields, get, elements, json_eq, is_true,
  str_or_empty,
}

-- What `datetime.fromisoformat` reads, in microseconds: with an offset, the instant; without one, the wall clock.
pub data Stamp : Type 0 where
  aware naive : ℕ → Stamp

-- `hashlib.sha256(...).hexdigest()`, `datetime.fromisoformat` and `str` of a list or a dictionary.
pub record Builtins : Type 0 where
  pub sha256 : Text → Text
  pub fromisoformat : Text → Option Stamp
  pub repr : Json → Text

-- A file that is decoded: `unreadable` stands for `OSError` and `JSONDecodeError`.
pub data File : Type 0 where
  missing unreadable : File
  content : Json → File

pub record ServiceErrorSpec : Type 0 where
  pub service : Text
  pub marker_name : Text
  pub ledger_name : Text

abbrev pub publisher_error_spec : ServiceErrorSpec
publisher_error_spec = record {
  service = codes "publisher";
  marker_name = codes "controlled-publisher-error.json";
  ledger_name = codes "controlled-publisher-seen.json";
}

abbrev pub gate_error_spec : ServiceErrorSpec
gate_error_spec = record {
  service = codes "gate";
  marker_name = codes "candidate-gate-error.json";
  ledger_name = codes "candidate-gate-seen.json";
}

abbrev pub revision_error_spec : ServiceErrorSpec
revision_error_spec = record {
  service = codes "revision";
  marker_name = codes "revision-loop-error.json";
  ledger_name = codes "revision-loop-seen.json";
}

-- The messages of `evidence["error"]`.
pub data Reason : Type 0 where
  file_invalid : Reason
  success_other_service success_not_recorded success_no_finished_at success_not_later : Reason
  success_other_release success_other_generation success_other_job success_missing : Reason
  no_entry entry_not_terminal no_terminal_time entry_not_later : Reason
  entry_invalid identity_drifted : Text → Reason
  pr_state_incompatible draft_incompatible published_after_marker : Reason
  no_generation history_incomplete current_generation_unresolved marker_not_older : Reason
  not_a_string_list job_not_listed terminal_evidence_not_mapping unknown_service : Reason
  marker_other_service marker_release_malformed marker_started_malformed : Reason
  marker_pid_malformed marker_generation_malformed : Reason
  marker_unreadable marker_not_object no_recorded_at no_witness no_started_at : Reason
  release_contradicts not_proven : Reason

-- `(True, None)` and `(False, message)`.
abbrev pub Check : Type 0
Check = Result Reason (Unit {0})

unfoldable pub utc : Stamp → ℕ
utc (aware instant) = instant
utc (naive instant) = instant

abbrev pub of_option : Option Text → Json
of_option none = null
of_option (some t) = string t

abbrev pub is_string_where : (Text → Bool) → Json → Bool
is_string_where p (string s) = p s
is_string_where p _ = false

abbrev is_hex : ℕ → Bool
is_hex c = leb 48 c && leb c 57 || leb 97 c && leb c 102

unfoldable pub load_json_mapping : File → Result Reason Fields
load_json_mapping missing = ok no_fields
load_json_mapping unreadable = err file_invalid
load_json_mapping (content (object fields)) = ok fields
load_json_mapping (content _) = err file_invalid

module _ (python : Builtins) where
  unfoldable pub parse_utc : Json → Option ℕ
  unfolding str_or_empty strip ends_with drop_end utc
  parse_utc value =
      let text = strip is_space (str_or_empty python.repr value) in
      if is_empty text
      then none
      else elim (python.fromisoformat
          (if ends_with (codes "Z") text then drop_end 1 text ++ codes "+00:00" else text)) [
            | none ↦ none
            | some stamp ↦ some (utc stamp)
          ]

  unfoldable pub is_exact_sha : Json → Bool
  unfolding str_or_empty
  is_exact_sha value =
      let text = str_or_empty python.repr value in nat_eq (length text) 40 && all is_hex text

  unfoldable pub is_sha256 : Json → Bool
  unfolding str_or_empty
  is_sha256 value =
      let text = str_or_empty python.repr value in nat_eq (length text) 64 && all is_hex text

  unfoldable pub generation_id : (release_commit started_at pid : Json) → Option Text
  unfolding str_or_empty
  generation_id release_commit started_at pid =
      let release = str_or_empty python.repr release_commit in
      let started = str_or_empty python.repr started_at in
      let process = str_or_empty python.repr pid in
      if is_empty release || is_empty started || is_empty process
      then none
      else some
          (python.sha256 (release ++ codes "\n" ++ started ++ codes "\n" ++ process ++ codes "\n"))

unfoldable pub current_witness : Fields → Text → Option Fields
unfolding get
current_witness service_checks service = elim (get (codes "services") service_checks) [
  | object services ↦ elim (get service services) [
    | object raw ↦ if is_true (get (codes "ok") raw) then some raw else none
    | _ ↦ none
  ]
  | _ ↦ none
]

-- A string that is not blank, stripped.
abbrev stripped : Json → Option Text
stripped (string s) = if is_empty (strip is_space s) then none else some (strip is_space s)
stripped _ = none

abbrev or_else : Option Text → Option Text → Option Text
or_else none b = b
or_else (some a) b = some a

-- The loop over `("job_id", "candidate_id", "attempt_id")`.
abbrev job_in : Fields → Option Text
job_in raw =
    or_else (stripped (get (codes "job_id") raw)) (
      or_else (stripped (get (codes "candidate_id") raw)) (stripped (get (codes "attempt_id") raw)))

abbrev job_of : Json → Option Text
job_of (object associated) = job_in associated
job_of _ = none

unfoldable pub associated_job : Fields → Option Text
unfolding get strip
associated_job raw = or_else (job_in raw) (job_of (get (codes "associated") raw))

abbrev pub listed : Text → Json → Bool
listed job_id (array items) = any (λ value. json_eq value (string job_id)) (elements items)
listed job_id _ = false

abbrev pub names_job : Text → Json → Bool
names_job job_id (object associated) = json_eq (get (codes "job_id") associated) (string job_id)
names_job job_id _ = false

unfoldable pub associated_matches : Fields → Text → Bool
unfolding get json_eq any
associated_matches raw job_id =
    names_job job_id (get (codes "associated") raw)
    || listed job_id (get (codes "associated_jobs") raw)
