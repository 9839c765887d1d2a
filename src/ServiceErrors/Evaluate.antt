-- ===== src/ServiceErrors/Evaluate.antt =====
-- `evaluate_service_error_marker` of src/msos_autobuilder/service_error_lifecycle.py.
use msos_autobuilder.Prelude.{
  ℕ, Bool, true, false, not, ◌&&◌, ◌||◌, Option, none, some, Text, codes, ◌==◌, ltb, leb,
  if◌then◌else◌, Result, ok, err, raise_if, ◌>>=◌, ◌>>◌,
}
use msos_autobuilder.Json.{Json, string, object, Fields, get, has, json_eq, is_none, is_int}
use msos_autobuilder.ServiceErrors.Records.{
  Builtins, File, missing, content, ServiceErrorSpec, Reason, no_terminal_time, entry_not_later,
  marker_other_service, marker_release_malformed, marker_started_malformed, marker_pid_malformed,
  marker_generation_malformed, marker_unreadable, marker_not_object, no_recorded_at, no_witness,
  no_started_at, release_contradicts, current_generation_unresolved, not_proven, Check, of_option,
  load_json_mapping, parse_utc, is_exact_sha, generation_id, current_witness, associated_job,
}
use msos_autobuilder.ServiceErrors.Ledgers.{terminal_ledger_after_marker}
use msos_autobuilder.ServiceErrors.Success.{
  require_some, success_supersedes, publisher_legacy_recovery_supersedes,
}

-- The files of the state directory that one evaluation reads.
pub record StateFiles : Type 0 where
  pub marker : File
  pub ledger : File
  pub success : File

-- `superseded_by`
pub data Supersession : Type 0 where
  later_same_generation_service_success later_authoritative_terminal_job_evidence : Supersession
  legacy_publisher_success_and_coherent_publication later_healthy_exact_release_service_start :
      Supersession

-- `state`, with `error` where `ok` is false.
pub data Verdict : Type 0 where
  absent : Verdict
  superseded : Supersession → Verdict
  active : Reason → Verdict

-- What the evaluation knows once the marker and the witness are read.
pub record Context : Type 0 where
  pub raw : Fields
  pub recorded : ℕ
  pub witness : Fields
  pub witness_started : ℕ
  pub current_release : Json
  pub current_generation : Option Text
  pub job_id : Option Text

-- `path.exists()`
abbrev exists : File → Bool
exists missing = false
exists _ = true

unfoldable pub read_marker : File → Result Reason Fields
read_marker (content (object raw)) = ok raw
read_marker (content _) = err marker_not_object
read_marker _ = err marker_unreadable

-- `a or b` on the optional message of the success check.
abbrev or_reason : Option Reason → Reason → Reason
or_reason none reason = reason
or_reason (some first) reason = first

module _ (python : Builtins) (spec : ServiceErrorSpec) where
  -- `marker_generation is not None` and not the one that its own fields give.
  abbrev pub generation_contradicts : Json → Json → Json → Json → Bool
  generation_contradicts marker_generation release started pid =
      not (is_none marker_generation) && (elim (generation_id python release started pid) [
        | none ↦ true
        | some expected ↦ not (json_eq marker_generation (string expected))
      ])

  unfoldable pub validate_marker_generation : Fields → Check
  unfolding get json_eq
  validate_marker_generation raw = do
    let release = get (codes "release_commit") raw
    let started = get (codes "witness_started_at") raw
    let pid = get (codes "witness_pid") raw
    let service = get (codes "service") raw
    raise_if (not (is_none service) && not (json_eq service (string spec.service)))
        marker_other_service
    raise_if (not (is_none release) && not (is_exact_sha python release)) marker_release_malformed
    raise_if
        (not (is_none started)
          && (elim (parse_utc python started) [ none ↦ true | some at ↦ false ]))
        marker_started_malformed
    raise_if (not (is_none pid) && not (is_int pid)) marker_pid_malformed
    raise_if (generation_contradicts (get (codes "generation_id") raw) release started pid)
        marker_generation_malformed

  unfoldable pub read_context : File → (service_checks : Fields) → Result Reason Context
  unfolding read_marker validate_marker_generation
  read_context marker service_checks = do
    raw ← read_marker marker
    recorded ← require_some (parse_utc python (get (codes "recorded_at") raw)) no_recorded_at
    witness ← require_some (current_witness service_checks spec.service) no_witness
    witness_started ←
        require_some (parse_utc python (get (codes "started_at") witness)) no_started_at
    validate_marker_generation raw
    ok (record {
      raw = raw;
      recorded = recorded;
      witness = witness;
      witness_started = witness_started;
      current_release = get (codes "release_commit") witness;
      current_generation =
          generation_id python (get (codes "release_commit") witness)
            (get (codes "started_at") witness) (get (codes "pid") witness);
      job_id = associated_job raw;
    })

  abbrev pub is_publisher : Bool
  is_publisher = spec.service == codes "publisher"

  abbrev pub publisher_associated : Context → Bool
  publisher_associated c = is_publisher && (elim c.job_id [ none ↦ false | some job ↦ true ])

  abbrev pub current_publisher_generation : Context → Bool
  current_publisher_generation c = publisher_associated c && (elim c.current_generation [
    | none ↦ false
    | some generation ↦
        json_eq (get (codes "release_commit") c.raw) c.current_release
        && json_eq (get (codes "generation_id") c.raw) (string generation)
  ])

  unfoldable pub success_check : StateFiles → Context → Result (Option Reason) (Unit {0})
  unfolding success_supersedes get json_eq
  success_check files c =
      if not (publisher_associated c) || current_publisher_generation c
      then success_supersedes python files.success spec.service c.recorded c.current_generation
          c.current_release c.job_id
      else err none

  abbrev pub legacy_reason : Reason → Bool
  legacy_reason no_terminal_time = true
  legacy_reason entry_not_later = true
  legacy_reason _ = false

  unfoldable pub decide_legacy : Check → Verdict
  decide_legacy (ok recovered) = superseded legacy_publisher_success_and_coherent_publication
  decide_legacy (err legacy_error) = active legacy_error

  unfoldable pub decide_with_job : StateFiles → Context → Fields → Text → Check → Verdict
  unfolding publisher_legacy_recovery_supersedes decide_legacy
  decide_with_job files c ledger job_id (ok done) =
      superseded later_authoritative_terminal_job_evidence
  decide_with_job files c ledger job_id (err terminal_error) =
      if is_publisher && legacy_reason terminal_error
      then decide_legacy (
          publisher_legacy_recovery_supersedes python ledger files.success c.raw c.recorded
            c.witness c.current_generation c.current_release job_id)
      else if is_publisher
          && not (has job_id ledger)
          && ltb c.recorded c.witness_started
          && not (json_eq (get (codes "generation_id") c.raw) (of_option c.current_generation))
      then superseded later_healthy_exact_release_service_start
      else active terminal_error

  unfoldable pub decide_without_job : Context → Option Reason → Verdict
  decide_without_job c success_error =
      let marker_release = get (codes "release_commit") c.raw in
      let same_release = json_eq marker_release c.current_release in
      if same_release && leb c.witness_started c.recorded
      then active (or_reason success_error current_generation_unresolved)
      else if not (is_none marker_release) && not same_release && leb c.witness_started c.recorded
      then active release_contradicts
      else if ltb c.recorded c.witness_started
      then superseded later_healthy_exact_release_service_start
      else active (or_reason success_error not_proven)

  unfoldable pub decide : StateFiles → Context → Result (Option Reason) (Unit {0}) → Verdict
  unfolding decide_with_job decide_without_job load_json_mapping terminal_ledger_after_marker
  decide files c (ok done) = superseded later_same_generation_service_success
  decide files c (err success_error) = elim (load_json_mapping files.ledger) [
    | err invalid ↦ active invalid
    | ok ledger ↦ elim c.job_id [
      | some job_id ↦
          decide_with_job files c ledger job_id
            (terminal_ledger_after_marker python spec.service ledger job_id c.recorded)
      | none ↦ decide_without_job c success_error
    ]
  ]

  unfoldable pub conclude : StateFiles → Result Reason Context → Verdict
  unfolding decide success_check
  conclude files (err reason) = active reason
  conclude files (ok c) = decide files c (success_check files c)

  unfoldable pub evaluate_service_error_marker : StateFiles → (service_checks : Fields) → Verdict
  unfolding conclude read_context
  evaluate_service_error_marker files service_checks =
      if not (exists files.marker)
      then absent
      else conclude files (read_context files.marker service_checks)
