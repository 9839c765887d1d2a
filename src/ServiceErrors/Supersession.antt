-- ===== src/ServiceErrors/Supersession.antt =====
-- What src/msos_autobuilder/service_error_lifecycle.py asks of the evidence that supersedes a marker: a
-- success of the service, terminal evidence of the marker's job, or the recovery of a publisher.
use msos_autobuilder.Prelude.{
  ℕ, ◌≡◌, Bool, true, false, ◌||◌, Option, none, some, List, [], ◌∷◌, ◌++◌, Text, codes, ltb, leb,
  any, keep, All, ok, ◌⊎◌,
}
use msos_autobuilder.Text.{is_empty, starts_with, ends_with}
use msos_autobuilder.Json.{
  Json, null, array, object, string, Fields, entries, elements, get, has, json_eq, is_none, is_true,
  is_int_not_bool,
}
use msos_autobuilder.ServiceErrors.Records.{
  Builtins, File, load_json_mapping, parse_utc, is_sha256, is_exact_sha,
}

abbrev pub field_of : Text → Json → Json
field_of key (object fields) = get key fields
field_of key _ = null

abbrev pub items_of : Json → List Json
items_of (array items) = elements items
items_of _ = []

abbrev pub IsAmong : Text → Json → Type 0
IsAmong job_id value = any (λ item. json_eq item (string job_id)) (items_of value) ≡ true

abbrev pub IsTrue : Bool → Type 0
IsTrue test = test ≡ true

-- A time stands in the field, and it is later than the other.
abbrev pub IsLater : Builtins → Json → ℕ → Type 0
IsLater python value recorded =
    (at : ℕ) × (parse_utc python value ≡ some at) × (ltb recorded at ≡ true)

-- A success of the service, by this release, after the marker.
pub record IsSuccess (python : Builtins) (raw : Fields) (service : Text) (recorded : ℕ)
    (release : Json) : Type 0 where
  pub of_service : json_eq (get (codes "service") raw) (string service) ≡ true
  pub succeeded : json_eq (get (codes "result") raw) (string (codes "success")) ≡ true
  pub is_later : IsLater python (get (codes "finished_at") raw) recorded
  pub of_release : json_eq (get (codes "release_commit") raw) release ≡ true

-- The success names the generation, where there is one.
abbrev pub IsOfGeneration : Option Text → Fields → Type 0
IsOfGeneration none raw = Unit {0}
IsOfGeneration (some generation) raw =
    (is_empty generation ≡ true)
    ⊎ (json_eq (get (codes "generation_id") raw) (string generation) ≡ true)

-- The success names the job, as its associated one or among several.
abbrev pub IsOfJob : Option Text → Fields → Type 0
IsOfJob none raw = Unit {0}
IsOfJob (some job_id) raw =
    (json_eq (field_of (codes "job_id") (get (codes "associated") raw)) (string job_id) ≡ true)
    ⊎ IsAmong job_id (get (codes "associated_jobs") raw)

-- The fields of a publication.
pub record IsPublication (python : Builtins) (entry : Fields) : Type 0 where
  pub gate_report : is_sha256 python (get (codes "gate_report_sha256") entry) ≡ true
  pub source_report : is_sha256 python (get (codes "source_report_sha256") entry) ≡ true
  pub branch :
      (name : Text) × (get (codes "branch") entry ≡ string name)
      × (starts_with (codes "autobuilder/") name ≡ true)
  pub commit : is_exact_sha python (get (codes "commit_sha") entry) ≡ true
  pub pr_number : is_int_not_bool (get (codes "pr_number") entry) ≡ true
  pub pr_url :
      (url : Text) × (get (codes "pr_url") entry ≡ string url)
      × (starts_with (codes "http") url ≡ true)
  pub results_commit : is_exact_sha python (get (codes "results_commit") entry) ≡ true

-- The status of a gate's entry.
abbrev pub IsGateStatus : Json → Type 0
IsGateStatus status =
    (status ≡ string (codes "passed"))
    ⊎ (status ≡ string (codes "failed"))
    ⊎ (status ≡ string (codes "unvalidated"))

-- A revision is found by the end of its key or by the job that it names.
abbrev pub is_of_revision : Text → Text × Json → Bool
is_of_revision job_id (key, object value) =
    ends_with (codes "/" ++ job_id) key
    || json_eq (get (codes "revision_job_id") value) (string job_id)
is_of_revision job_id _ = false

-- The ledger of the service records the end of the job, after the marker.
pub data IsTerminal (python : Builtins) (service : Text) (ledger : Fields) (job_id : Text)
    (recorded : ℕ) : Type 0 where
  published :
      (entry : Fields)
      → service ≡ codes "publisher"
      → get job_id ledger ≡ object entry
      → IsPublication python entry
      → IsLater python (get (codes "published_at") entry) recorded
      → IsTerminal python service ledger job_id recorded
  gated :
      (entry : Fields)
      → service ≡ codes "gate"
      → get job_id ledger ≡ object entry
      → is_sha256 python (get (codes "source_report_sha256") entry) ≡ true
      → is_exact_sha python (get (codes "results_commit") entry) ≡ true
      → IsGateStatus (get (codes "status") entry)
      → IsLater python (get (codes "processed_at") entry) recorded
      → IsTerminal python service ledger job_id recorded
  revised :
      (key name : Text) (entry : Fields)
      → service ≡ codes "revision"
      → keep (is_of_revision job_id) (entries ledger) ≡ (key, object entry) ∷ []
      → is_sha256 python (get (codes "gate_report_sha256") entry) ≡ true
      → get (codes "revision_job_id") entry ≡ string name
      → is_empty name ≡ false
      → is_exact_sha python (get (codes "jobs_commit") entry) ≡ true
      → IsLater python (get (codes "queued_at") entry) recorded
      → IsTerminal python service ledger job_id recorded

-- The marker is of a generation that is not the one that runs, and started before it.
pub record IsOlder (python : Builtins) (marker witness : Fields) (current : Text) (release : Json)
    : Type 0 where
  pub has_release : is_none (get (codes "release_commit") marker) ≡ false
  pub has_generation : is_none (get (codes "generation_id") marker) ≡ false
  pub differs :
      (json_eq (get (codes "release_commit") marker) release ≡ false)
      ⊎ (json_eq (get (codes "generation_id") marker) (string current) ≡ false)
  pub started : ℕ
  pub is_started : parse_utc python (get (codes "witness_started_at") marker) ≡ some started
  pub started_later : IsLater python (get (codes "started_at") witness) started

abbrev pub identities : List Text
identities =
    codes "gate_report_sha256"
    ∷ codes "source_report_sha256"
    ∷ codes "branch"
    ∷ codes "commit_sha"
    ∷ codes "pr_number"
    ∷ codes "pr_url"
    ∷ codes "results_commit"
    ∷ []

-- What the marker says of the publication is what the ledger says.
abbrev pub IsSameIdentity : Json → Fields → Type 0
IsSameIdentity (object associated) entry =
    All
      (λ key. (has key associated ≡ false) ⊎ (json_eq (get key associated) (get key entry) ≡ true))
      identities
IsSameIdentity _ entry = Unit {0}

-- The publication in the ledger is an open draft, of the marker's identity, from before the marker.
pub record IsCoherent (python : Builtins) (entry marker : Fields) (recorded : ℕ) : Type 0 where
  pub is_publication : IsPublication python entry
  pub status :
      (has (codes "status") entry ≡ false)
      ⊎ (json_eq (get (codes "status") entry) (string (codes "published-draft")) ≡ true)
  pub identity : IsSameIdentity (get (codes "associated") marker) entry
  pub pr_state :
      (has (codes "pr_state") entry ≡ false)
      ⊎ (json_eq (get (codes "pr_state") entry) (string (codes "open")) ≡ true)
  pub draft : (has (codes "draft") entry ≡ false) ⊎ (is_true (get (codes "draft") entry) ≡ true)
  pub not_after :
      (is_none (get (codes "published_at") entry) ≡ true)
      ⊎ ((at : ℕ) × (parse_utc python (get (codes "published_at") entry) ≡ some at)
          × (leb at recorded ≡ true))

-- The publisher's success of the generation that runs, which names the job twice.
pub record IsRecovery (python : Builtins) (file : File) (recorded : ℕ) (release : Json)
    (current job_id : Text) : Type 0 where
  pub raw : Fields
  pub is_raw : load_json_mapping file ≡ ok raw
  pub success : IsSuccess python raw (codes "publisher") recorded release
  pub generation : json_eq (get (codes "generation_id") raw) (string current) ≡ true
  pub associated : IsAmong job_id (get (codes "associated_jobs") raw)
  pub verified :
      IsAmong job_id (field_of (codes "verified_jobs") (get (codes "terminal_evidence") raw))

-- The publisher's publication of the job has been recovered since the marker, by a later generation.
pub record IsRecovered (python : Builtins) (file : File) (ledger marker witness : Fields)
    (recorded : ℕ) (generation : Option Text) (release : Json) (job_id : Text) : Type 0 where
  pub current : Text
  pub is_current : generation ≡ some current
  pub older : IsOlder python marker witness current release
  pub entry : Fields
  pub is_entry : get job_id ledger ≡ object entry
  pub coherent : IsCoherent python entry marker recorded
  pub recovery : IsRecovery python file recorded release current job_id

-- The marker is of the generation that runs.
abbrev pub IsCurrent : Fields → Json → Option Text → Type 0
IsCurrent marker release generation =
    (current : Text) × (generation ≡ some current)
    × (json_eq (get (codes "release_commit") marker) release ≡ true)
    × (json_eq (get (codes "generation_id") marker) (string current) ≡ true)
