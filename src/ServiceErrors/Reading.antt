-- ===== src/ServiceErrors/Reading.antt =====
-- What the evaluation of src/msos_autobuilder/service_error_lifecycle.py has read when it goes on to the
-- evidence: a marker of the service and a healthy witness of the running service.
use msos_autobuilder.Prelude.{
  ℕ, ◌≡◌, refl, refl, subst, if◌then◌else◌, Bool, true, false, not, ◌&&◌, Option, none, some, Text,
  codes, arith, ok, ◌⊎◌, inl, inr, Bool-cases, >>=-eq-ok, raise_if-eq-ok, raise_if->>-eq-ok,
}
use msos_autobuilder.Json.{
  Json, null, boolean, integer, array, object, string, Fields, get, json_eq, is_none, is_true,
  is_int,
}
use msos_autobuilder.ServiceErrors.Records.{
  Builtins, File, missing, unreadable, content, ServiceErrorSpec, parse_utc, is_exact_sha,
  generation_id, current_witness, associated_job, no_recorded_at, no_witness, no_started_at,
}
use msos_autobuilder.ServiceErrors.Success.{require_some}
use msos_autobuilder.ServiceErrors.Asked.{some-require_some}
use msos_autobuilder.ServiceErrors.Evaluate.{
  Context, read_marker, validate_marker_generation, read_context,
}

-- What a marker says of its origin is of this service and well formed, where it says it.
pub record IsOfService (python : Builtins) (spec : ServiceErrorSpec) (marker : Fields)
    : Type 0 where
  pub service :
      (is_none (get (codes "service") marker) ≡ true)
      ⊎ (json_eq (get (codes "service") marker) (string spec.service) ≡ true)
  pub release :
      (is_none (get (codes "release_commit") marker) ≡ true)
      ⊎ (is_exact_sha python (get (codes "release_commit") marker) ≡ true)
  pub started :
      (is_none (get (codes "witness_started_at") marker) ≡ true)
      ⊎ ((at : ℕ) × (parse_utc python (get (codes "witness_started_at") marker) ≡ some at))
  pub pid :
      (is_none (get (codes "witness_pid") marker) ≡ true)
      ⊎ (is_int (get (codes "witness_pid") marker) ≡ true)
  pub generation :
      (is_none (get (codes "generation_id") marker) ≡ true)
      ⊎ ((expected : Text) × (generation_id python
              (get (codes "release_commit") marker)
              (get (codes "witness_started_at") marker)
              (get (codes "witness_pid") marker)
            ≡ some expected)
          × (json_eq (get (codes "generation_id") marker) (string expected) ≡ true))

-- The service's entry of the checks, which is healthy.
abbrev pub IsHealthy : Fields → Text → Fields → Type 0
IsHealthy service_checks service witness =
    (services : Fields) × (get (codes "services") service_checks ≡ object services)
    × (get service services ≡ object witness)
    × (is_true (get (codes "ok") witness) ≡ true)

-- The marker and the witness that the context comes from.
pub record IsRead (python : Builtins) (spec : ServiceErrorSpec) (marker : File)
    (service_checks : Fields) (c : Context) : Type 0 where
  pub is_marker : marker ≡ content (object c.raw)
  pub of_service : IsOfService python spec c.raw
  pub is_recorded : parse_utc python (get (codes "recorded_at") c.raw) ≡ some c.recorded
  pub healthy : IsHealthy service_checks spec.service c.witness
  pub is_started : parse_utc python (get (codes "started_at") c.witness) ≡ some c.witness_started
  pub is_release : c.current_release ≡ get (codes "release_commit") c.witness
  pub is_generation :
      c.current_generation
      ≡ generation_id python
          (get (codes "release_commit") c.witness)
          (get (codes "started_at") c.witness)
          (get (codes "pid") c.witness)
  pub is_job : c.job_id ≡ associated_job c.raw

read_marker-content :
    (marker : File) (raw : Fields) → read_marker marker ≡ ok raw → marker ≡ content (object raw)
unfolding read_marker
read_marker-content (content (object fields)) raw h = let same : fields ≡ raw = cc in rw same refl
read_marker-content (content null) raw h = absurd cc
read_marker-content (content (string t)) raw h = absurd cc
read_marker-content (content (array t)) raw h = absurd cc
read_marker-content (content (integer t)) raw h = absurd cc
read_marker-content (content (boolean t)) raw h = absurd cc
read_marker-content missing raw h = absurd cc
read_marker-content unreadable raw h = absurd cc

healthy_entry :
    (v : Json) (witness : Fields)
    → (elim v [ object raw ↦ if is_true (get (codes "ok") raw) then some raw else none | _ ↦ none ])
      ≡ some witness
    → (v ≡ object witness) × (is_true (get (codes "ok") witness) ≡ true)
healthy_entry (object raw) witness h = elim (Bool-cases (is_true (get (codes "ok") raw))) [
  | inl good ↦
      let same : raw ≡ witness = let k = rw good at h in cc in (rw same refl, rw (← same) good)
  | inr bad ↦ absurd (let k = rw bad at h in cc)
]
healthy_entry null witness h = absurd cc
healthy_entry (string t) witness h = absurd cc
healthy_entry (array t) witness h = absurd cc
healthy_entry (integer t) witness h = absurd cc
healthy_entry (boolean t) witness h = absurd cc

current_witness-IsHealthy :
    (service_checks : Fields) (service : Text) (witness : Fields)
    → current_witness service_checks service ≡ some witness
    → IsHealthy service_checks service witness
unfolding current_witness
current_witness-IsHealthy service_checks service witness h =
    by_services (get (codes "services") service_checks) refl h
  where
    by_services :
        (v : Json)
        → get (codes "services") service_checks ≡ v
        → (elim v [
          | object services ↦ elim (get service services) [
            | object raw ↦ if is_true (get (codes "ok") raw) then some raw else none
            | _ ↦ none
          ]
          | _ ↦ none
        ])
          ≡ some witness
        → IsHealthy service_checks service witness
    by_services (object services) e k =
        let (a, b) = healthy_entry (get service services) witness k in (services, e, a, b)
    by_services null e k = absurd cc
    by_services (string t) e k = absurd cc
    by_services (array t) e k = absurd cc
    by_services (integer t) e k = absurd cc
    by_services (boolean t) e k = absurd cc

-- A guard on a field that may be missing.
unless_none :
    (is_missing fits : Bool)
    → (not is_missing && not fits) ≡ false
    → (is_missing ≡ true) ⊎ (fits ≡ true)
unless_none true fits h = inl refl
unless_none false fits h = inr (ground arith)

module _ (python : Builtins) (spec : ServiceErrorSpec) where
  started_or_none :
      (is_missing : Bool) (found : Option ℕ)
      → (not is_missing && (elim found [ none ↦ true | some at ↦ false ])) ≡ false
      → (is_missing ≡ true) ⊎ ((at : ℕ) × (found ≡ some at))
  started_or_none true found h = inl refl
  started_or_none false none h = absurd (ground arith)
  started_or_none false (some at) h = inr (at, refl)

  generation_or_none :
      (marker_generation : Json) (is_missing : Bool) (found : Option Text)
      → (not is_missing && (elim found [
        | none ↦ true
        | some expected ↦ not (json_eq marker_generation (string expected))
      ]))
        ≡ false
      → (is_missing ≡ true)
        ⊎ ((expected : Text) × (found ≡ some expected)
            × (json_eq marker_generation (string expected) ≡ true))
  generation_or_none g true found h = inl refl
  generation_or_none g false none h = absurd (ground arith)
  generation_or_none g false (some expected) h = inr (expected, refl, ground arith)

  validate-IsOfService :
      (marker : Fields)
      → validate_marker_generation python spec marker ≡ ok tt
      → IsOfService python spec marker
  unfolding validate_marker_generation
  validate-IsOfService marker h =
      let (a, h1) = raise_if->>-eq-ok _ _ _ h in
      let (b, h2) = raise_if->>-eq-ok _ _ _ h1 in
      let (c, h3) = raise_if->>-eq-ok _ _ _ h2 in
      let (d, h4) = raise_if->>-eq-ok _ _ _ h3 in
      record {
        service = unless_none _ _ a;
        release = unless_none _ _ b;
        started = started_or_none _ _ c;
        pid = unless_none _ _ d;
        generation = generation_or_none _ _ _ (raise_if-eq-ok _ _ h4);
      }

  pub read_context-IsRead :
      (marker : File) (service_checks : Fields) (c : Context)
      → read_context python spec marker service_checks ≡ ok c
      → IsRead python spec marker service_checks c
  unfolding read_context
  read_context-IsRead marker service_checks c h =
      let (raw, a, h1) = >>=-eq-ok (read_marker marker) _ h in
      let (recorded, b, h2) =
        >>=-eq-ok (require_some (parse_utc python (get (codes "recorded_at") raw)) no_recorded_at) _
          h1 in
      let (witness, d, h3) =
        >>=-eq-ok (require_some (current_witness service_checks spec.service) no_witness) _ h2 in
      let (started, e, h4) =
        >>=-eq-ok (require_some (parse_utc python (get (codes "started_at") witness)) no_started_at)
          _ h3 in
      let (u, f, h5) = >>=-eq-ok (validate_marker_generation python spec raw) _ h4 in
      let same : record {
        raw = raw;
        recorded = recorded;
        witness = witness;
        witness_started = started;
        current_release = get (codes "release_commit") witness;
        current_generation =
            generation_id python (get (codes "release_commit") witness)
              (get (codes "started_at") witness) (get (codes "pid") witness);
        job_id = associated_job raw;
      }
          ≡ c =
        cc in
      subst (IsRead python spec marker service_checks) same (record {
        is_marker = read_marker-content marker raw a;
        of_service = validate-IsOfService raw f;
        is_recorded = some-require_some _ _ _ b;
        healthy =
            current_witness-IsHealthy service_checks spec.service witness
              (some-require_some _ _ _ d);
        is_started = some-require_some _ _ _ e;
        is_release = refl;
        is_generation = refl;
        is_job = refl;
      })
