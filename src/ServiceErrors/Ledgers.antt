-- ===== src/ServiceErrors/Ledgers.antt =====
-- The terminal job evidence in the ledgers of src/msos_autobuilder/service_error_lifecycle.py.
use msos_autobuilder.Prelude.{
  ℕ, Bool, false, not, ◌&&◌, ◌||◌, Option, none, some, List, [], ◌∷◌, ◌++◌, Text, codes, ◌==◌, leb,
  text_mem, keep, if◌then◌else◌, Result, ok, err, raise_if, ◌>>=◌, ◌>>◌,
}
use msos_autobuilder.Text.{is_empty, starts_with, ends_with}
use msos_autobuilder.Json.{
  Json, string, object, Fields, entries, get, has, json_eq, is_true, is_int_not_bool,
}
use msos_autobuilder.ServiceErrors.Records.{
  Builtins, Reason, no_entry, entry_not_terminal, no_terminal_time, entry_not_later, entry_invalid,
  identity_drifted, pr_state_incompatible, draft_incompatible, unknown_service, Check,
  is_string_where, parse_utc, is_exact_sha, is_sha256,
}

-- `ledger.get(job_id)` if it is a dictionary.
abbrev pub job_entry : Text → Fields → Result Reason Fields
job_entry job_id ledger = elim (get job_id ledger) [ object entry ↦ ok entry | _ ↦ err no_entry ]

-- `for key, validator in required.items()`
abbrev pub require_valid : List (Text × (Json → Bool)) → Fields → Check
require_valid [] entry = ok tt
require_valid ((key, validator) ∷ rest) entry =
    if validator (get key entry) then require_valid rest entry else err (entry_invalid key)

-- The entry's time is there and later than the marker's.
abbrev pub require_later : Option ℕ → ℕ → Check
require_later none marker_recorded = err no_terminal_time
require_later (some at) marker_recorded = raise_if (leb at marker_recorded) entry_not_later

abbrev pub identity_keys : List Text
identity_keys =
    codes "gate_report_sha256"
    ∷ codes "source_report_sha256"
    ∷ codes "branch"
    ∷ codes "commit_sha"
    ∷ codes "pr_number"
    ∷ codes "pr_url"
    ∷ codes "results_commit"
    ∷ []

abbrev pub require_equal : List Text → Fields → Fields → Check
require_equal [] associated entry = ok tt
require_equal (key ∷ keys) associated entry =
    if has key associated && not (json_eq (get key associated) (get key entry))
    then err (identity_drifted key)
    else require_equal keys associated entry

unfoldable pub require_same_identity : Json → Fields → Check
unfolding get has json_eq
require_same_identity (object associated) entry = require_equal identity_keys associated entry
require_same_identity _ entry = ok tt

module _ (python : Builtins) where
  -- `required` of the publisher's two checks.
  abbrev pub publication : List (Text × (Json → Bool))
  publication =
      (codes "gate_report_sha256", is_sha256 python)
      ∷ (codes "source_report_sha256", is_sha256 python)
      ∷ (codes "branch", is_string_where (starts_with (codes "autobuilder/")))
      ∷ (codes "commit_sha", is_exact_sha python)
      ∷ (codes "pr_number", is_int_not_bool)
      ∷ (codes "pr_url", is_string_where (starts_with (codes "http")))
      ∷ (codes "results_commit", is_exact_sha python)
      ∷ []

  unfoldable pub publisher_terminal_after : Fields → Text → ℕ → Check
  unfolding get
  publisher_terminal_after ledger job_id marker_recorded = do
    entry ← job_entry job_id ledger
    require_valid publication entry
    require_later (parse_utc python (get (codes "published_at") entry)) marker_recorded

  unfoldable pub publisher_ledger_identity_is_coherent : Fields → (marker : Fields) → Check
  unfolding require_same_identity
  publisher_ledger_identity_is_coherent entry marker = do
    require_valid publication entry
    raise_if
        (has (codes "status") entry
          && not (json_eq (get (codes "status") entry) (string (codes "published-draft"))))
        (entry_invalid (codes "status"))
    require_same_identity (get (codes "associated") marker) entry
    raise_if
        (has (codes "pr_state") entry
          && not (json_eq (get (codes "pr_state") entry) (string (codes "open"))))
        pr_state_incompatible
    raise_if (has (codes "draft") entry && not (is_true (get (codes "draft") entry)))
        draft_incompatible

  unfoldable pub gate_terminal_after : Fields → Text → ℕ → Check
  unfolding get text_mem
  gate_terminal_after ledger job_id marker_recorded = do
    entry ← job_entry job_id ledger
    raise_if (not (is_sha256 python (get (codes "source_report_sha256") entry)))
        (entry_invalid (codes "source_report_sha256"))
    raise_if (not (is_exact_sha python (get (codes "results_commit") entry)))
        (entry_invalid (codes "results_commit"))
    raise_if
        (not (
          is_string_where
            (λ s. text_mem s (codes "passed" ∷ codes "failed" ∷ codes "unvalidated" ∷ []))
            (get (codes "status") entry)))
        entry_not_terminal
    require_later (parse_utc python (get (codes "processed_at") entry)) marker_recorded

  abbrev pub revision_matches : Text → Text × Json → Bool
  revision_matches job_id (key, object value) =
      ends_with (codes "/" ++ job_id) key
      || json_eq (get (codes "revision_job_id") value) (string job_id)
  revision_matches job_id _ = false

  abbrev pub sole : List (Text × Json) → Result Reason Fields
  sole ((key, object value) ∷ []) = ok value
  sole _ = err no_entry

  unfoldable pub revision_terminal_after : Fields → Text → ℕ → Check
  unfolding get json_eq ends_with keep
  revision_terminal_after ledger job_id marker_recorded = do
    entry ← sole (keep (revision_matches job_id) (entries ledger))
    raise_if (not (is_sha256 python (get (codes "gate_report_sha256") entry)))
        (entry_invalid (codes "gate_report_sha256"))
    raise_if (not (is_string_where (λ s. not (is_empty s)) (get (codes "revision_job_id") entry)))
        (entry_invalid (codes "revision_job_id"))
    raise_if (not (is_exact_sha python (get (codes "jobs_commit") entry)))
        (entry_invalid (codes "jobs_commit"))
    require_later (parse_utc python (get (codes "queued_at") entry)) marker_recorded

  unfoldable pub terminal_ledger_after_marker : (service : Text) → Fields → Text → ℕ → Check
  unfolding publisher_terminal_after gate_terminal_after revision_terminal_after
  terminal_ledger_after_marker service ledger job_id marker_recorded =
      if service == codes "publisher"
      then publisher_terminal_after ledger job_id marker_recorded
      else if service == codes "gate"
      then gate_terminal_after ledger job_id marker_recorded
      else if service == codes "revision"
      then revision_terminal_after ledger job_id marker_recorded
      else err unknown_service
