-- ===== src/Host/Jobs.antt =====
-- The job files of src/msos_autobuilder/persistent_host.py: `HostJob` and `parse_host_job` with the
-- checks that it calls.
pub mod Manifests
pub mod WellFormed
pub mod RoundTrip
use msos_autobuilder.Prelude.{
  ℕ, Bool, true, false, not, ◌&&◌, ◌||◌, Option, none, some, [], ◌∷◌, Text, codes, nat_eq, leb,
  length, all, if◌then◌else◌, Result, ok, err, raise_if, ◌>>=◌, ◌>>◌,
}
use msos_autobuilder.Text.{is_space, strip, starts_with, is_empty, is_id_char}
use msos_autobuilder.Json.{
  Json, null, boolean, integer, string, array, object, Items, no_items, item, Fields, get, find,
  json_eq, is_falsy, str_or_empty,
}

-- PyYAML, hashlib, `str.lower`, and `str` of a list or a dictionary.
pub record Codec : Type 0 where
  pub safe_load : Text → Option Json
  pub safe_dump : Json → Text
  pub sha256 : Text → Text
  pub lower : Text → Text
  pub repr : Json → Text

-- The messages of `HostJobError` and of the other exceptions that stop a job or the host.
pub data HostError : Type 0 where
  invalid_yaml not_a_mapping unsupported_version publication_not_disabled : HostError
  approved_not_boolean : HostError
  manifest_not_mapping manifest_version manifest_publication lanes_empty : HostError
  lane_not_mapping prompt_file_used instruction_missing : HostError
  admitted_not_mapping admitted_incomplete admitted_not_full_sha : HostError
  source_head_not_sha admitted_drifted unsafe_id : HostError
  job_exists job_not_found archive_exists : HostError
  file_exists file_missing : HostError
  bad_feed_ledger : HostError
  already_running lock_lost : HostError
  freeze_incomplete freeze_over_source freeze_outside freeze_drifted : HostError
  source_head_differs interrupted : HostError
  failed_with : Text → HostError

abbrev pub Manifest : Type 0
Manifest = Fields

-- `(repository, commit, remote_url)`
abbrev pub AdmittedTarget : Type 0
AdmittedTarget = Text × Text × Text

pub record HostJob : Type 0 where
  pub job_id : Text
  pub approved : Bool
  pub manifest : Manifest
  pub content_sha256 : Text
  pub requested_by : Option Text
  pub submitted_at : Option Text
  pub approved_at : Option Text
  pub expected_source_head : Option Text
  pub admitted_target : Option AdmittedTarget

is_alphanumeric : ℕ → Bool
is_alphanumeric c = leb b'A' c && leb c b'Z' || leb b'a' c && leb c b'z' || leb b'0' c && leb c b'9'

-- `_ID_PATTERN`
unfoldable pub is_id : Text → Bool
unfolding is_alphanumeric is_id_char
is_id [] = false
is_id (c ∷ s) = is_alphanumeric c && all is_id_char s && leb (length s) 127

unfoldable pub safe_id : Text → Result HostError Text
unfolding strip is_id
safe_id value = do
  raise_if (not (is_id (strip is_space value))) unsafe_id
  ok (strip is_space value)

pub is_commit_hex : ℕ → Bool
is_commit_hex c = leb 48 c && leb c 57 || leb 97 c && leb c 102

is_any_hex : ℕ → Bool
is_any_hex c = leb 48 c && leb c 57 || leb 97 c && leb c 102 || leb 65 c && leb c 70

-- `raw.get("publication_enabled", False) is not False`, negated
unfoldable pub is_disabled : Fields → Bool
unfolding find
is_disabled raw = elim (find (codes "publication_enabled") raw) [
  | none ↦ true
  | some (boolean enabled) ↦ not enabled
  | some _ ↦ false
]

-- An instruction is a string that is not blank.
abbrev has_instruction : Json → Bool
has_instruction (string s) = not (is_empty (strip is_space s))
has_instruction _ = false

validate_lane : Json → Result HostError (Unit {0})
unfolding get strip
validate_lane (object lane) = do
  raise_if (not (is_falsy (get (codes "prompt_file") lane))) prompt_file_used
  raise_if (not (has_instruction (get (codes "instruction") lane))) instruction_missing
validate_lane _ = err lane_not_mapping

validate_lanes : Items → Result HostError (Unit {0})
unfolding validate_lane
validate_lanes no_items = ok tt
validate_lanes (item lane lanes) = do validate_lane lane; validate_lanes lanes

require_lanes : Json → Result HostError (Unit {0})
unfolding validate_lanes
require_lanes (array no_items) = err lanes_empty
require_lanes (array lanes) = validate_lanes lanes
require_lanes _ = err lanes_empty

unfoldable pub validate_manifest : Json → Result HostError Manifest
unfolding get json_eq is_disabled require_lanes
validate_manifest (object manifest) = do
  raise_if (not (json_eq (get (codes "version") manifest) (integer 1))) manifest_version
  raise_if (not (is_disabled manifest)) manifest_publication
  require_lanes (get (codes "lanes") manifest)
  ok manifest
validate_manifest _ = err manifest_not_mapping

unfoldable pub approved_of : Fields → Result HostError Bool
unfolding find
approved_of raw = elim (find (codes "approved") raw) [
  | none ↦ ok false
  | some (boolean approved) ↦ ok approved
  | some _ ↦ err approved_not_boolean
]

module _ (yaml : Codec) where
  -- `str(value or "").strip()`
  abbrev text_of : Json → Text
  text_of value = strip is_space (str_or_empty yaml.repr value)

  -- `text or None`
  abbrev or_none : Text → Option Text
  or_none [] = none
  or_none (c ∷ s) = some (c ∷ s)

  complete_target : Fields → Result HostError (Option AdmittedTarget)
  unfolding get strip str_or_empty is_commit_hex
  complete_target admitted = do
    let repository = text_of (get (codes "target_repository") admitted)
    let commit = yaml.lower (text_of (get (codes "target_source_commit") admitted))
    let remote_url = text_of (get (codes "target_remote_url") admitted)
    raise_if (is_empty repository || is_empty commit || is_empty remote_url) admitted_incomplete
    raise_if (not (nat_eq (length commit) 40 && all is_commit_hex commit)) admitted_not_full_sha
    ok (some (repository, commit, remote_url))

  admitted_in : Json → Result HostError (Option AdmittedTarget)
  unfolding complete_target
  admitted_in null = ok none
  admitted_in (object admitted) = complete_target admitted
  admitted_in _ = err admitted_not_mapping

  admitted_by : Json → Result HostError (Option AdmittedTarget)
  unfolding get admitted_in
  admitted_by (object admission) = admitted_in (get (codes "admitted_target") admission)
  admitted_by _ = ok none

  admitted_for : Json → Result HostError (Option AdmittedTarget)
  unfolding get admitted_by
  admitted_for (object founder) = admitted_by (get (codes "work_admission") founder)
  admitted_for _ = ok none

  unfoldable pub admitted_target_from_raw : Fields → Result HostError (Option AdmittedTarget)
  unfolding get admitted_for
  admitted_target_from_raw raw = admitted_for (get (codes "founder_build_next") raw)

  source_head : Json → Option Text
  unfolding strip str_or_empty
  source_head raw = if is_falsy raw then none else some (text_of raw)

  abbrev is_bad_source_head : Option Text → Bool
  is_bad_source_head none = false
  is_bad_source_head (some head) =
      not (is_empty head)
      && not (leb 7 (length head) && leb (length head) 64 && all is_any_hex head)

  -- The frozen commit is not the expected head, nor does it start with it.
  abbrev has_drifted : Option AdmittedTarget → Option Text → Bool
  has_drifted (some (repository, commit, remote_url)) (some head) =
      not (is_empty head) && not (starts_with (yaml.lower head) commit)
  has_drifted _ _ = false

  -- The job, once its target and the head that it expects agree.
  parse_identity :
      Text
      → Fields
      → Bool
      → Manifest
      → Option Text
      → Option AdmittedTarget
      → Result HostError HostJob
  unfolding get safe_id strip str_or_empty starts_with
  parse_identity text raw approved manifest expected admitted = do
    raise_if (has_drifted admitted expected) admitted_drifted
    job_id ← safe_id (str_or_empty yaml.repr (get (codes "job_id") raw))
    ok (record {
      job_id = job_id;
      approved = approved;
      manifest = manifest;
      content_sha256 = yaml.sha256 text;
      requested_by = or_none (text_of (get (codes "requested_by") raw));
      submitted_at = or_none (text_of (get (codes "submitted_at") raw));
      approved_at = or_none (text_of (get (codes "approved_at") raw));
      expected_source_head = expected;
      admitted_target = admitted;
    })

  parse_target : Text → Fields → Bool → Manifest → Result HostError HostJob
  unfolding get source_head is_any_hex admitted_target_from_raw parse_identity
  parse_target text raw approved manifest = do
    let expected = source_head (get (codes "expected_source_head") raw)
    raise_if (is_bad_source_head expected) source_head_not_sha
    admitted ← admitted_target_from_raw raw
    parse_identity text raw approved manifest expected admitted

  unfoldable pub parse_mapping : Text → Fields → Result HostError HostJob
  unfolding get json_eq is_disabled approved_of validate_manifest parse_target
  parse_mapping text raw = do
    raise_if (not (json_eq (get (codes "version") raw) (integer 1))) unsupported_version
    raise_if (not (is_disabled raw)) publication_not_disabled
    approved ← approved_of raw
    manifest ← validate_manifest (get (codes "manifest") raw)
    parse_target text raw approved manifest

  loaded_job : Text → Option Json → Result HostError HostJob
  unfolding parse_mapping
  loaded_job text none = err invalid_yaml
  loaded_job text (some (object raw)) = parse_mapping text raw
  loaded_job text (some _) = err not_a_mapping

  unfoldable pub parse_host_job : Text → Result HostError HostJob
  unfolding loaded_job
  parse_host_job text = loaded_job text (yaml.safe_load text)
