-- ===== src/Host/Jobs/WellFormed.antt =====
-- What `parse_host_job` of src/msos_autobuilder/persistent_host.py promises of the jobs that it returns.
use msos_autobuilder.Prelude.{
  ◌≤◌, ◌≡◌, ◌⊎◌, refl, subst, none, some, Option, Text, codes, Result, ok, Bool, true, false, ◌&&◌,
  ◌||◌, nat_eq, length, all, arith, ◌>>=◌, >>=-eq-ok, raise_if->>-eq-ok, raise_if-not->>-eq-ok,
  ok_inj,
}
use msos_autobuilder.Text.{starts_with, is_empty, is_id_char}
use msos_autobuilder.Json.{
  Json, null, boolean, integer, string, array, object, Fields, get, str_or_empty, json_eq,
}
use msos_autobuilder.Host.Jobs.{
  HostError, Codec, HostJob, Manifest, AdmittedTarget, is_id, safe_id, is_commit_hex, is_disabled,
  validate_manifest, approved_of, complete_target, admitted_in, admitted_by, admitted_for,
  admitted_incomplete, admitted_not_full_sha, admitted_drifted, source_head_not_sha,
  unsupported_version, publication_not_disabled, text_of, source_head, parse_identity, parse_target,
  loaded_job, admitted_target_from_raw, has_drifted, is_bad_source_head, parse_mapping,
  parse_host_job,
}
use msos_autobuilder.Host.Jobs.Manifests.{
  IsRunnable, validate_manifest-IsRunnable, safe_id-is_id, is_id_bounds,
}

-- A frozen target names a full commit, which starts with the head that the job expects.
abbrev pub IsFrozen : Codec → Option AdmittedTarget → Option Text → Type 0
IsFrozen yaml none expected = Unit
IsFrozen yaml (some (repository, commit, remote_url)) none =
    (length commit ≡ 40) × (all is_commit_hex commit ≡ true)
IsFrozen yaml (some (repository, commit, remote_url)) (some head) =
    (length commit ≡ 40)
    × (all is_commit_hex commit ≡ true)
    × ((is_empty head ≡ true) ⊎ (starts_with (yaml.lower head) commit ≡ true))

pub record IsWellFormed (yaml : Codec) (job : HostJob) : Type 0 where
  pub id_is_id : is_id job.job_id ≡ true
  pub runnable : IsRunnable job.manifest
  pub frozen : IsFrozen yaml job.admitted_target job.expected_source_head

module _ (yaml : Codec) where
  nothing-IsFrozen :
      (target : Option AdmittedTarget) (returned : Result HostError (Option AdmittedTarget))
      → returned ≡ ok none
      → returned ≡ ok target
      → IsFrozen yaml target none
  nothing-IsFrozen none returned e h = tt
  nothing-IsFrozen (some target) returned e h = absurd cc

  complete_target_lem :
      (admitted : Fields) (target : Option AdmittedTarget)
      → complete_target yaml admitted ≡ ok target
      → IsFrozen yaml target none
  unfolding complete_target
  complete_target_lem admitted target h =
      let repository = text_of yaml (get (codes "target_repository") admitted) in
      let commit = yaml.lower (text_of yaml (get (codes "target_source_commit") admitted)) in
      let remote_url = text_of yaml (get (codes "target_remote_url") admitted) in
      let (complete, rest) =
        raise_if->>-eq-ok (is_empty repository || is_empty commit || is_empty remote_url)
          admitted_incomplete _ h in
      let (full, same) =
        raise_if-not->>-eq-ok (nat_eq (length commit) 40 && all is_commit_hex commit)
          admitted_not_full_sha _ rest in
      let frozen : IsFrozen yaml (some (repository, commit, remote_url)) none =
        (ground arith, ground arith) in
      subst (λ t. IsFrozen yaml t none) (ok_inj _ target _ refl same) frozen

  admitted_in_lem :
      (value : Json) (target : Option AdmittedTarget)
      → admitted_in yaml value ≡ ok target
      → IsFrozen yaml target none
  unfolding admitted_in
  admitted_in_lem null target h = nothing-IsFrozen target _ refl h
  admitted_in_lem (object admitted) target h = complete_target_lem admitted target h
  admitted_in_lem (boolean b) target h = absurd cc
  admitted_in_lem (integer n) target h = absurd cc
  admitted_in_lem (string s) target h = absurd cc
  admitted_in_lem (array v) target h = absurd cc

  admitted_by_lem :
      (value : Json) (target : Option AdmittedTarget)
      → admitted_by yaml value ≡ ok target
      → IsFrozen yaml target none
  unfolding admitted_by
  admitted_by_lem (object admission) target h = admitted_in_lem _ target h
  admitted_by_lem null target h = nothing-IsFrozen target _ refl h
  admitted_by_lem (boolean b) target h = nothing-IsFrozen target _ refl h
  admitted_by_lem (integer n) target h = nothing-IsFrozen target _ refl h
  admitted_by_lem (string s) target h = nothing-IsFrozen target _ refl h
  admitted_by_lem (array v) target h = nothing-IsFrozen target _ refl h

  admitted_for_lem :
      (value : Json) (target : Option AdmittedTarget)
      → admitted_for yaml value ≡ ok target
      → IsFrozen yaml target none
  unfolding admitted_for
  admitted_for_lem (object founder) target h = admitted_by_lem _ target h
  admitted_for_lem null target h = nothing-IsFrozen target _ refl h
  admitted_for_lem (boolean b) target h = nothing-IsFrozen target _ refl h
  admitted_for_lem (integer n) target h = nothing-IsFrozen target _ refl h
  admitted_for_lem (string s) target h = nothing-IsFrozen target _ refl h
  admitted_for_lem (array v) target h = nothing-IsFrozen target _ refl h

  IsFrozen-head :
      (target : Option AdmittedTarget) (expected : Option Text)
      → IsFrozen yaml target none
      → has_drifted yaml target expected ≡ false
      → IsFrozen yaml target expected
  IsFrozen-head none expected f h = tt
  IsFrozen-head (some target) none f h = f
  IsFrozen-head (some (repository, commit, remote_url)) (some head) f h = (f.0, f.1, ground arith)

  parse_identity-IsWellFormed :
      (text : Text) (raw : Fields) (approved : Bool) (manifest : Manifest) (expected : Option Text)
      (admitted : Option AdmittedTarget) (job : HostJob)
      → IsRunnable manifest
      → IsFrozen yaml admitted none
      → parse_identity yaml text raw approved manifest expected admitted ≡ ok job
      → IsWellFormed yaml job
  unfolding parse_identity
  parse_identity-IsWellFormed text raw approved manifest expected admitted job runnable frozen h =
      let (same_head, h1) =
        raise_if->>-eq-ok (has_drifted yaml admitted expected) admitted_drifted _ h in
      let (id, e, same) =
        >>=-eq-ok (safe_id (str_or_empty yaml.repr (get (codes "job_id") raw))) _ h1 in
      subst (IsWellFormed yaml) (ok_inj _ job _ refl same) (record {
        id_is_id = safe_id-is_id _ id e;
        runnable = runnable;
        frozen = IsFrozen-head admitted expected frozen same_head;
      })

  parse_target-IsWellFormed :
      (text : Text) (raw : Fields) (approved : Bool) (manifest : Manifest) (job : HostJob)
      → IsRunnable manifest
      → parse_target yaml text raw approved manifest ≡ ok job
      → IsWellFormed yaml job
  unfolding parse_target admitted_target_from_raw
  parse_target-IsWellFormed text raw approved manifest job runnable h =
      let expected = source_head yaml (get (codes "expected_source_head") raw) in
      let (good_head, h1) =
        raise_if->>-eq-ok (is_bad_source_head yaml expected) source_head_not_sha _ h in
      let (admitted, e, h2) =
        >>=-eq-ok (admitted_target_from_raw yaml raw)
          (parse_identity yaml text raw approved manifest expected) h1 in
      parse_identity-IsWellFormed text raw approved manifest expected admitted job runnable
        (admitted_for_lem (get (codes "founder_build_next") raw) admitted e) h2

  parse_mapping-IsWellFormed :
      (text : Text) (raw : Fields) (job : HostJob)
      → parse_mapping yaml text raw ≡ ok job
      → IsWellFormed yaml job
  unfolding parse_mapping
  parse_mapping-IsWellFormed text raw job h =
      let (version, h1) =
        raise_if-not->>-eq-ok (json_eq (get (codes "version") raw) (integer 1)) unsupported_version
          _ h in
      let (disabled, h2) = raise_if-not->>-eq-ok (is_disabled raw) publication_not_disabled _ h1 in
      let (approved, e3, h3) =
        >>=-eq-ok (approved_of raw)
          (λ approved.
            validate_manifest (get (codes "manifest") raw) >>= parse_target yaml text raw approved)
          h2 in
      let (manifest, e4, h4) =
        >>=-eq-ok (validate_manifest (get (codes "manifest") raw))
          (parse_target yaml text raw approved) h3 in
      parse_target-IsWellFormed text raw approved manifest job
        (validate_manifest-IsRunnable (get (codes "manifest") raw) manifest e4).1 h4

  -- A job that is read has an identifier of the pattern, a manifest that does not publish and has
  -- lanes, all with inline instructions, and a frozen target, if any, whose full commit starts
  -- with the expected head.
  pub parse_host_job-IsWellFormed :
      (text : Text) (job : HostJob) → parse_host_job yaml text ≡ ok job → IsWellFormed yaml job
  unfolding parse_host_job
  parse_host_job-IsWellFormed text job h = by_value (yaml.safe_load text) h
    where
      by_value : (value : Option Json) → loaded_job yaml text value ≡ ok job → IsWellFormed yaml job
      by_value none k = absurd cc
      by_value (some (object raw)) k = parse_mapping-IsWellFormed text raw job k
      by_value (some null) k = absurd cc
      by_value (some (boolean b)) k = absurd cc
      by_value (some (integer n)) k = absurd cc
      by_value (some (string s)) k = absurd cc
      by_value (some (array v)) k = absurd cc

  -- The identifier of a job that is read has 1 to 128 letters, digits, dots, dashes and
  -- underscores, and does not start with a dot.
  pub parse_host_job-is_id :
      (text : Text) (job : HostJob)
      → parse_host_job yaml text ≡ ok job
      → (1 ≤ length job.job_id)
        × (length job.job_id ≤ 128)
        × (all is_id_char job.job_id ≡ true)
        × (starts_with (codes ".") job.job_id ≡ false)
  parse_host_job-is_id text job h =
      is_id_bounds job.job_id (parse_host_job-IsWellFormed text job h).id_is_id
