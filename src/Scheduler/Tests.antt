-- ===== src/Scheduler/Tests.antt =====
-- Two lanes, a rival that already leases one of them, and the theorems at concrete inputs.
use msos_autobuilder.Prelude.{
  ℕ, ◌≡◌, ◌≢◌, refl, true, false, none, List, [], ◌∷◌, map, Text, codes, ok, err, is_ok, ◌==◌, all,
  lookup, insert, remove, text_mem, keep, All, if◌then◌else◌,
}
use msos_autobuilder.Text.{
  is_id_char, is_space, strip, forward_slashes, is_dot_or_slash, is_slash, text_lt,
}
use msos_autobuilder.Text.Fnmatch.{is_wildcard}
use msos_autobuilder.Models.{BuildTask, free}
use msos_autobuilder.Lanes.{assert_lanes_compatible, lanes_conflict, ownership_root, roots_overlap}
use msos_autobuilder.Leases.{
  readable, LeaseError, FileLeaseStore, validate_id, acquire, renew, release,
}
use msos_autobuilder.Leases.Traces.{Operation, renewing, step, run}
use msos_autobuilder.Routing.{
  WorkerBackend, select, min_by_key, pick, is_compatible, sort_key, key_lt,
}
use msos_autobuilder.Workspaces.{
  make_policy, resolve, descend, parent, inside, path_eq, expected_path, validate_backend_path,
  assert_unique, paths_distinct, is_safe_component, not_unique,
}
use msos_autobuilder.Workspaces.Tests.{product, workspace, runtime, policy, lane}
use msos_autobuilder.Scheduler.{
  ScheduledTask, leases, workspaces, plan, assign, acquire_all, release_all, renewal_failed,
  collect, run_scheduled, run_tasks,
}
use msos_autobuilder.Scheduler.Cleanup.{run_scheduled-rollback, run_scheduled-releases}
use msos_autobuilder.Scheduler.Planning.{IsAssigned, plan_lem, plan-ne-not_unique}

abbrev worker : WorkerBackend
worker = record {
  capabilities = record {
    backend_id = codes "worker";
    capabilities = [];
    max_concurrency = 2;
    cost_class = free;
    timeout_seconds = 60;
  };
  claim = λ task. true;
  prepare_workspace = λ task path. ok path;
  execute = λ task path. ok (record {
    task_id = task.task_id;
    backend_id = codes "worker";
    status = codes "done";
    summary = [];
    changed_paths = [];
    metadata = [];
  });
}

abbrev task : Text → Text → BuildTask
task name root = record {
  task_id = name;
  lane = record (lane name) { allowed_paths = root ∷ [] };
  instruction = codes "write";
}

abbrev tasks : List BuildTask
tasks = task (codes "a") (codes "docs/**") ∷ task (codes "b") (codes "src/**") ∷ []

abbrev item : BuildTask → ScheduledTask
item t = record {
  task = t;
  backend = worker;
  workspace = codes "srv" ∷ codes "work" ∷ t.task_id ∷ [];
}

abbrev planned : List ScheduledTask
planned = map item tasks

abbrev clock : Text → ℕ
clock lane = 100

abbrev empty : FileLeaseStore
empty = record { leases = []; locks = [] }

abbrev taken : FileLeaseStore
taken = record {
  leases =
      (
        codes "b",
        readable (record {
          lane_id = codes "b";
          owner_id = codes "rival";
          acquired_at = 90;
          heartbeat_at = 90;
          expires_at = 120;
        }),
      )
      ∷ [];
  locks = [];
}

abbrev beats : List Operation
beats = renewing (codes "a") (codes "me") 60 130 ∷ renewing (codes "b") (codes "me") 60 130 ∷ []

program : Unit {0}
unfolding acquire renew release validate_id is_id_char all lookup insert remove ◌==◌ text_mem step
    run plan assign select min_by_key pick is_compatible sort_key key_lt text_lt keep expected_path
    resolve descend parent inside path_eq validate_backend_path is_safe_component assert_unique
    paths_distinct assert_lanes_compatible lanes_conflict ownership_root roots_overlap is_wildcard
    is_space strip forward_slashes is_dot_or_slash is_slash acquire_all release_all renewal_failed
    collect run_scheduled run_tasks make_policy
program = tt

plan-tasks : plan (worker ∷ []) policy tasks ≡ ok planned
unfolding program
plan-tasks = refl

run_beats : (run_tasks (worker ∷ []) policy tasks (codes "me") 60 clock none beats empty).1 ≡ empty
unfolding program
run_beats = refl

run_refused :
    run_tasks (worker ∷ []) policy tasks (codes "me") 60 clock none [] taken
    ≡ (err (leases (LeaseError.leased_by (codes "b") (codes "rival") 120)), taken)
unfolding program
run_refused = refl

plan_lem_example :
    (map (λ i. i.task) planned ≡ tasks)
    × All (IsAssigned (worker ∷ []) policy) planned
    × (assert_lanes_compatible (map (λ t. t.lane) tasks) ≡ ok tt)
    × (paths_distinct (map (λ i. i.workspace) planned) ≡ true)
plan_lem_example = plan_lem (worker ∷ []) policy tasks planned plan-tasks

plan-ne-not_unique_example : plan (worker ∷ []) policy tasks ≢ err (workspaces not_unique)
unfolding program
plan-ne-not_unique_example =
    plan-ne-not_unique (worker ∷ []) product workspace runtime policy tasks refl
      ((refl, refl), ((refl, refl), tt))

run_scheduled-rollback_example :
    let after = run_scheduled policy (codes "me") 60 clock none [] planned taken in
    (is_ok after.0 ≡ false)
    × (lookup (codes "a") after.1.leases ≡ (
        if text_mem (codes "a") (acquire_all (codes "me") 60 clock planned [] taken).1
        then none
        else lookup (codes "a") taken.leases))
unfolding program
run_scheduled-rollback_example =
    run_scheduled-rollback policy (codes "me") 60 clock none [] planned taken (codes "a") refl

run_scheduled-releases_example :
    lookup
      (codes "b")
      (run_scheduled policy (codes "me") 60 clock none beats planned empty).1.leases
    ≡ none
unfolding program
run_scheduled-releases_example =
    run_scheduled-releases policy (codes "me") 60 clock none beats planned empty (codes "b") refl
      refl
