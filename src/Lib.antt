-- ===== src/Lib.antt =====
-- The autobuilder runs coding tasks in isolated lanes of one repository. Before a run, work is
-- admitted and claimed; the scheduler plans the tasks, leases their lanes, lets backends work in
-- workspaces of their own, and releases the lanes. A supervisor replaces the running release by an
-- approved one, and judges the error markers that its services leave behind.
--
-- Parts of the program, all under src/msos_autobuilder, and the modules that model them:
-- * models.py (Models): capabilities, lanes and tasks, with the checks of each `__post_init__`.
-- * lanes.py (Lanes): `assert_lanes_compatible` and `assert_changed_paths_allowed`, on the glob
--   matching of Text.Fnmatch.
-- * leases.py (Leases): `FileLeaseStore` as a dictionary of lease files and one of lock files, with
--   `acquire`, `renew` and `release` as functions from store to result and store.
-- * routing.py and backends/base.py (Routing): `BackendRouter`; a backend is a record of functions.
-- * workspaces.py (Workspaces): `WorkspacePolicy` on POSIX paths without symbolic links.
-- * scheduler.py (Scheduler): `ParallelScheduler`, which calls the four parts above. What other
--   threads and processes do to the lease store is a list of operations in the order of the locks.
-- * work_admission.py (WorkAdmission): `admit_work` and `release_claim` on the claims directory.
--   Each runs under one file lock, so it is one step; a sequence of them is a list.
-- * service_error_lifecycle.py (ServiceErrors): `evaluate_service_error_marker`, on decoded JSON
--   (Json).
-- * self_update_supervisor.py (SelfUpdate): `UpdateSupervisor.apply` with its lock, ledger, cutover
--   and rollback. The release builder, the task controller and the health verifier are the
--   parameters that the class takes.
-- * update_check_waiter.py (UpdateWaiter): the loop that waits for the checks of an update.
-- * persistent_host.py (Host): the host's queue and archive directories as dictionaries, its file
--   operations as steps before each of which it may be killed, and on them the enqueueing, the feed,
--   the archives, recovery, the process lock, `process_one` and `run_once`. It releases the writer
--   claim of a failed job by the `release_claim` of WorkAdmission. Git, YAML and the runner are
--   parameters.
-- * lifecycle_evidence.py (Lifecycle): `_reduce_identity_heads`, which reduces the evidence of an
--   attempt to a snapshot, the category that the refill reads from it, and `_replace_head`, which
--   updates the head of a producer (Lifecycle.Heads). The proofs that the reduction looks for in
--   other records, and the check of a head that stands in a file, are parameters.
--
-- Raised exceptions are the `err` of a result, or the `raised` of an answer of the host; where code
-- changes files before it raises, the state is returned beside it. Texts are lists of code points,
-- times and counts natural numbers. The only fuel is that of the decimal digits of a number, its
-- own successor, the two turns of the supervisor's lock, which are the source's, and one turn more
-- than there are ticks for the wait.
--
-- Parameters stand for the digests of hashlib, for `datetime.fromisoformat`, for `str` of a list or
-- a dictionary, for the clock, for the verifier of the checks with the time that it takes, and for
-- the lock file that another supervisor may create between two turns of the lock's loop. Not
-- modelled: the writing of messages and evidence mappings, the atomic replacement of a file (a
-- write is one step that succeeds), the host's status file, heartbeat, evidence records and endless
-- loop, the producers of lifecycle evidence and its files, the parsing of update manifests, the
-- Windows branches, and the components that mostly call git, GitHub or subprocesses
-- (refill_controller.py, controlled_publisher.py, completion_controller.py, candidate_gate.py and
-- the command line). Also left out are the resolution of a release path in the active pointer, the
-- time of its activation, the empty ledger entry, errors of the verifier that are not the
-- supervisor's, and, in the reduction, the loading and the identity check of the evidence. Other
-- processes reach the lease store while the backends work, not between two acquires or two releases
-- of a run.
pub mod Prelude
pub mod Text
pub mod Json
pub mod Models
pub mod Lanes
pub mod Leases
pub mod Routing
pub mod Workspaces
pub mod Scheduler
pub mod WorkAdmission
pub mod ServiceErrors
pub mod SelfUpdate
pub mod UpdateWaiter
pub mod Host
pub mod Lifecycle
