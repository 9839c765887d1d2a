-- ===== src/Scheduler.antt =====
-- src/msos_autobuilder/scheduler.py: one parallel run. The lanes are planned, leased in order, worked
-- on, and released in the reverse order whatever happened. What happens to the lease store while the
-- backends work, the renewals of the heartbeat thread and the calls of other processes, is a list of
-- operations in the order in which they took the store's locks. The semaphores, which only delay a
-- backend, are not modelled; a heartbeat interval is in milliseconds.
pub mod Leasing
pub mod Cleanup
pub mod Planning
pub mod Tests
use msos_autobuilder.Prelude.{
  ℕ, Bool, true, false, not, ◌&&◌, ◌||◌, Option, none, some, List, [], ◌∷◌, map, Text, nat_eq, ◌==◌,
  all_distinct, if◌then◌else◌, Result, ok, err, raise_if, map_err, is_ok, ◌>>=◌, ◌>>◌,
}
use msos_autobuilder.Models.{FilePath, BuildTask}
use msos_autobuilder.Lanes.{LaneConflict, assert_lanes_compatible}
use msos_autobuilder.Leases.{LeaseError, FileLeaseStore, aware, acquire, release}
use msos_autobuilder.Leases.Traces.{Operation, acquiring, renewing, releasing, step, run}
use msos_autobuilder.Routing.{WorkerBackend, ExecutionEvidence, RoutingError, select}
use msos_autobuilder.Workspaces.{
  WorkspacePolicy, WorkspaceIsolationError, expected_path, validate_backend_path, assert_unique,
}

pub data SchedulerError : Type 0 where
  no_tasks task_ids_not_unique interval_not_positive heartbeat_failed : SchedulerError
  lanes : LaneConflict → SchedulerError
  routing : RoutingError → SchedulerError
  workspaces : WorkspaceIsolationError → SchedulerError
  leases : LeaseError → SchedulerError
  backend_failed : Text → SchedulerError

pub record ScheduledTask : Type 0 where
  pub task : BuildTask
  pub backend : WorkerBackend
  pub workspace : FilePath

abbrev pub lane_of : ScheduledTask → Text
lane_of item = item.task.lane.lane_id

unfoldable pub assign :
    List WorkerBackend
    → WorkspacePolicy
    → List BuildTask
    → Result SchedulerError (List ScheduledTask)
assign backends policy [] = ok []
assign backends policy (task ∷ tasks) = do
  chosen ← map_err routing (select task backends)
  path ← map_err workspaces (expected_path policy task.lane)
  rest ← assign backends policy tasks
  ok (record { task = task; backend = chosen; workspace = path } ∷ rest)

is_nil : List BuildTask → Bool
is_nil [] = true
is_nil (t ∷ ts) = false

unfoldable pub plan :
    List WorkerBackend
    → WorkspacePolicy
    → List BuildTask
    → Result SchedulerError (List ScheduledTask)
unfolding is_nil assign
plan backends policy tasks = do
  raise_if (is_nil tasks) no_tasks
  raise_if (not (all_distinct (map (λ t. t.task_id) tasks))) task_ids_not_unique
  map_err lanes (assert_lanes_compatible (map (λ t. t.lane) tasks))
  planned ← assign backends policy tasks
  map_err workspaces (assert_unique (map (λ item. item.workspace) planned))
  ok planned

-- The loop over `acquire`: whether it ended, the lanes acquired so far, newest first, and the store.
abbrev pub Acquired : Type 0
Acquired = Result LeaseError (Unit {0}) × List Text × FileLeaseStore

module _ (owner : Text) (ttl : ℕ) (clock : Text → ℕ) where
  unfoldable pub acquire_all : List ScheduledTask → List Text → FileLeaseStore → Acquired
  acquire_all [] acquired store = (ok tt, acquired, store)
  acquire_all (item ∷ items) acquired store =
      let (result, after) = acquire (lane_of item) owner ttl (aware (clock (lane_of item))) store in
      elim result [
        | ok lease ↦ acquire_all items (lane_of item ∷ acquired) after
        | err e ↦ (err e, acquired, after)
      ]

-- The loop of the `finally` block: the first `release` that raises ends it.
unfoldable pub release_all :
    Text → List Text → FileLeaseStore → Result LeaseError (Unit {0}) × FileLeaseStore
release_all owner [] store = (ok tt, store)
release_all owner (lane ∷ acquired) store =
    let (result, after) = release lane owner store in
    elim result [ ok done ↦ release_all owner acquired after | err e ↦ (err e, after) ]

-- One of the owner's renewals among the operations raises: the heartbeat notes its error.
is_renewal_of : Text → Operation → Bool
is_renewal_of owner (acquiring lane caller ttl now) = false
is_renewal_of owner (renewing lane caller ttl now) = caller == owner
is_renewal_of owner (releasing lane caller) = false

unfoldable pub renewal_failed : Text → List Operation → FileLeaseStore → Bool
unfolding is_renewal_of
renewal_failed owner [] store = false
renewal_failed owner (o ∷ os) store =
    let (after, returned) = step o store in
    is_renewal_of owner o && not returned || renewal_failed owner os after

execute : WorkspacePolicy → ScheduledTask → Result SchedulerError ExecutionEvidence
execute policy item = do
  prepared ← map_err backend_failed (item.backend.prepare_workspace item.task item.workspace)
  workspace ← map_err workspaces (validate_backend_path policy item.task.lane prepared)
  map_err backend_failed (item.backend.execute item.task workspace)

-- `tuple(future.result() for future in futures)`
unfoldable pub collect :
    WorkspacePolicy → List ScheduledTask → Result SchedulerError (List ExecutionEvidence)
unfolding execute
collect policy [] = ok []
collect policy (item ∷ items) = do
  evidence ← execute policy item
  rest ← collect policy items
  ok (evidence ∷ rest)

is_bad_interval : Option ℕ → Bool
is_bad_interval none = false
is_bad_interval (some interval) = nat_eq interval 0

-- The body of the `try` block after the leases are acquired.
abbrev work :
    WorkspacePolicy
    → Text
    → Option ℕ
    → List Operation
    → List ScheduledTask
    → FileLeaseStore
    → Result SchedulerError (List ExecutionEvidence) × FileLeaseStore
work policy owner interval during scheduled store =
    if is_bad_interval interval then (err interval_not_positive, store) else (
      (do
        evidence ← collect policy scheduled
        raise_if (renewal_failed owner during store) heartbeat_failed
        ok evidence),
      run during store,
    )

-- `finally`: an exception of a release takes the place of the block's result.
abbrev pub finish :
    Text
    → List Text
    → Result SchedulerError (List ExecutionEvidence) × FileLeaseStore
    → Result SchedulerError (List ExecutionEvidence) × FileLeaseStore
finish owner acquired (result, store) =
    let (released, after) = release_all owner acquired store in
    elim released [ ok done ↦ (result, after) | err e ↦ (err (leases e), after) ]

unfoldable pub run_scheduled :
    WorkspacePolicy
    → Text
    → ℕ
    → (Text → ℕ)
    → Option ℕ
    → List Operation
    → List ScheduledTask
    → FileLeaseStore
    → Result SchedulerError (List ExecutionEvidence) × FileLeaseStore
unfolding is_bad_interval
run_scheduled policy owner ttl clock interval during scheduled store =
    let (got, acquired, held) = acquire_all owner ttl clock scheduled [] store in
    elim got [
      | ok done ↦ finish owner acquired (work policy owner interval during scheduled held)
      | err e ↦ finish owner acquired (err (leases e), held)
    ]

unfoldable pub run_tasks :
    List WorkerBackend
    → WorkspacePolicy
    → List BuildTask
    → Text
    → ℕ
    → (Text → ℕ)
    → Option ℕ
    → List Operation
    → FileLeaseStore
    → Result SchedulerError (List ExecutionEvidence) × FileLeaseStore
run_tasks backends policy tasks owner ttl clock interval during store =
    elim (plan backends policy tasks) [
      | err e ↦ (err e, store)
      | ok scheduled ↦ run_scheduled policy owner ttl clock interval during scheduled store
    ]
