-- ===== src/Host/Tests.antt =====
-- Runs of a small host of src/msos_autobuilder/persistent_host.py.
use msos_autobuilder.Prelude.{
  ℕ, suc, nat_eq, ◌≡◌, ◌≤◌, refl, true, false, none, some, List, [], ◌∷◌, Text, codes, ◌==◌, Dict,
  lookup, insert, remove, text_mem, all, length, ok, if◌then◌else◌,
}
use msos_autobuilder.Text.{
  is_space, strip, lstrip, rstrip, ends_with, drop_end, starts_with, text_lt, is_id_char,
}
use msos_autobuilder.Json.{
  Json, integer, string, array, no_items, item, object, Fields, no_fields, field, get, find,
}
use msos_autobuilder.Host.Jobs.{
  Codec, HostJob, unsafe_id, is_id, safe_id, validate_manifest, parse_host_job,
}
use msos_autobuilder.Host.Jobs.WellFormed.{
  IsWellFormed, parse_host_job-IsWellFormed, parse_host_job-is_id,
}
use msos_autobuilder.Host.Jobs.RoundTrip.{requested, enqueue_manifest-parse_host_job}
use msos_autobuilder.Host.Store.{
  empty_archive, ledger_of, HostStore, Process, returned, raised, pure_call, after, ◌>>=◌,
  with_store, operation, sort_names, stem,
}
use msos_autobuilder.Host.Files.{
  file_operation, token_hex, start_running, make_staging, move_job, write_outcome, publish_failed,
  annotate_failed,
}
use msos_autobuilder.Host.Tools.{HostTools, call}
use msos_autobuilder.Host.Feed.{
  new_payload, is_known, seen_hash, sync_git_job_feed, enqueue_manifest, yaml_file,
}
use msos_autobuilder.Host.Archives.{
  claim_release_fields, release_archived_claim, note_refusal, release_claim_for_failure,
  failed_destination, move_if_running, archive_failure, archive_interrupted, recover_staging,
  recover_interrupted_jobs,
}
use msos_autobuilder.Host.Process.{claim_next_job}
use msos_autobuilder.Host.Stands.{waits, InStore}
use msos_autobuilder.Host.Running.Recovery.{recover_interrupted_jobs-running}
use msos_autobuilder.Host.Claims.{IsApproved, claim_next_job-IsApproved}
use msos_autobuilder.Host.Seen.Ledger.{sync_git_job_feed-seen_hash}
use msos_autobuilder.Host.Calls.{HostCall, run, host_calls, host_calls-InStore}

abbrev lane : Json
lane = object (field (codes "instruction") (string (codes "fix it")) no_fields)

abbrev manifest : Fields
manifest =
    field (codes "version") (integer 1)
      (field (codes "lanes") (array (item lane no_items)) no_fields)

abbrev payload : Json
payload = object (new_payload (codes "a") (codes "me") (codes "now") true none manifest)

-- The files that the codec reads: a manifest and the job that is made of it.
abbrev codec : Codec
codec = record {
  safe_load = λ text.
      if text == codes "m"
      then some (object manifest)
      else if text == codes "j"
      then some payload
      else none;
  safe_dump = λ value. codes "j";
  sha256 = λ text. codes "h";
  lower = λ text. text;
  repr = λ value. [];
}

-- The machine counts its calls.
abbrev tools : HostTools ℕ
tools = record {
  codec = codec;
  token = λ n. codes "t";
  pid = 7;
  pid_alive = λ pid n. nat_eq pid 9;
  now = λ n. n;
  timestamp = λ n. codes "now";
  fetch_feed = λ n. (ok (some ((codes "a.yaml", codes "j") ∷ [])), suc n);
  load_config = λ n. (ok tt, suc n);
  destination_is_source = λ id n. false;
  destination_is_inside = λ id n. true;
  fetch_declared_target = λ repository commit remote_url n. (ok commit, suc n);
  current_head = λ n. (ok (codes "c"), suc n);
  load_specs = λ m n. (ok tt, suc n);
  runner = λ job n. (ok tt, suc n);
  collect_patches = λ job n. (ok tt, suc n);
}

abbrev store_with : Dict Text → Dict Text → HostStore ℕ
store_with pending running = record {
  pending = pending;
  running = running;
  staging = [];
  completed = [];
  failed = [];
  feed_ledger = ledger_of ((codes "a", codes "h") ∷ []);
  lock = none;
  stop_requested = false;
  claims = record { claims = []; index = [] };
  drawn = 0;
  machine = 0;
}

abbrev waiting : HostStore ℕ
waiting = store_with ((codes "a.yaml", codes "j") ∷ []) []

abbrev process_of : HostStore ℕ → Process ℕ
process_of store = record { store = store; crash_in = none }

-- Two runs, the first of which is killed after nine file operations.
abbrev calls : List (HostCall ℕ)
calls = run false (some 9) ∷ run false none ∷ []

host_calls-InStore_example : InStore (codes "j") (host_calls tools calls waiting)
unfolding lookup ◌==◌
host_calls-InStore_example =
    host_calls-InStore tools calls (codes "j") waiting
      (waits (codes "a.yaml", codes "j", refl, refl))

parse_host_job-IsWellFormed_example :
    IsWellFormed codec
      (requested codec (codes "a") (codes "me") (codes "now") (codes "j") true manifest)
unfolding parse_host_job ◌==◌ new_payload is_space all
parse_host_job-IsWellFormed_example =
    parse_host_job-IsWellFormed codec (codes "j")
      (requested codec (codes "a") (codes "me") (codes "now") (codes "j") true manifest) refl

parse_host_job-is_id_example :
    (1 ≤ length (codes "a"))
    × (length (codes "a") ≤ 128)
    × (all is_id_char (codes "a") ≡ true)
    × (starts_with (codes ".") (codes "a") ≡ false)
unfolding parse_host_job ◌==◌ new_payload is_space all
parse_host_job-is_id_example =
    parse_host_job-is_id codec (codes "j")
      (requested codec (codes "a") (codes "me") (codes "now") (codes "j") true manifest) refl

abbrev job : HostJob
job = requested codec (codes "a") (codes "me") (codes "now") (codes "j") true manifest

abbrev claimed : HostStore ℕ
claimed = store_with [] ((codes "a.yaml", codes "j") ∷ [])

claim_next_job-IsApproved_example : IsApproved codec (some (codes "a.yaml", job)) claimed
unfolding claim_next_job with_store sort_names ends_with ◌==◌ lookup parse_host_job new_payload
    is_space all ◌>>=◌ file_operation operation start_running remove insert
claim_next_job-IsApproved_example =
    claim_next_job-IsApproved tools (process_of waiting) (process_of claimed)
      (some (codes "a.yaml", job)) refl

enqueue_manifest-parse_host_job_example :
    let answered =
      enqueue_manifest tools
        (codes "m")
        (codes "a")
        true
        (codes "me")
        none
        (process_of (store_with [] [])) in
    (text : Text) × (answered.0 ≡ returned (yaml_file (codes "a")))
    × (lookup (yaml_file (codes "a")) answered.1.store.pending ≡ some text)
    × (parse_host_job codec text
        ≡ ok (requested codec (codes "a") (codes "me") (codes "now") text true manifest))
unfolding is_id all is_known lookup ◌==◌ validate_manifest is_space
enqueue_manifest-parse_host_job_example =
    enqueue_manifest-parse_host_job tools (store_with [] []) (codes "m") (codes "a") (codes "me")
      true manifest refl refl refl refl refl

-- The feed has the job again, which is completed by now.
abbrev synced : HostStore ℕ
synced = record (store_with [] []) { machine = 1 }

sync_git_job_feed-seen_hash_example :
    (text_mem (codes "a") [] ≡ false)
    × (lookup (yaml_file (codes "a")) synced.pending
        ≡ lookup (yaml_file (codes "a")) (store_with [] []).pending)
    × ((kept : Dict Text) × (synced.feed_ledger ≡ ledger_of kept)
        × (seen_hash tools (codes "a") kept ≡ some (codes "h")))
unfolding seen_hash lookup ◌==◌ sync_git_job_feed ◌>>=◌ call with_store pure_call sort_names
    ends_with parse_host_job new_payload is_space all file_operation operation
sync_git_job_feed-seen_hash_example =
    sync_git_job_feed-seen_hash tools (codes "a") (codes "h") ((codes "a", codes "h") ∷ [])
      (process_of (store_with [] [])) (process_of synced) [] refl refl refl

-- The interrupted job is archived among the failed ones.
abbrev recovered : HostStore ℕ
recovered = record (store_with [] []) {
  failed =
      (
        codes "a",
        record empty_archive { job = some (codes "j"); outcome = some (codes "interrupted") },
      )
      ∷ [];
  drawn = 1;
}

recover_interrupted_jobs-running_example : lookup (codes "a.yaml") recovered.running ≡ none
unfolding recover_interrupted_jobs with_store ◌>>=◌ sort_names ends_with ◌==◌ pure_call safe_id stem
    is_space all lookup token_hex file_operation operation make_staging move_job archive_failure
    archive_interrupted claim_release_fields failed_destination move_if_running note_refusal
    recover_staging release_archived_claim release_claim_for_failure annotate_failed publish_failed
    write_outcome is_id after find get insert remove drop_end is_id_char lstrip rstrip strip text_lt
    new_payload
recover_interrupted_jobs-running_example =
    recover_interrupted_jobs-running tools (process_of claimed) (process_of recovered)
      (codes "a.yaml") refl refl

abbrev poisoned : HostStore ℕ
poisoned = store_with [] ((codes "a b.yaml", codes "j") ∷ [])

poisoned_recovery_raises :
    recover_interrupted_jobs tools (process_of poisoned) ≡ (raised unsafe_id, process_of poisoned)
unfolding sort_names ends_with ◌==◌ is_id strip stem is_space all recover_interrupted_jobs
    with_store ◌>>=◌ pure_call safe_id
poisoned_recovery_raises = refl
