-- ===== src/Scheduler/Cleanup.antt =====
-- What a run leaves in the lease store, whether its lanes were all acquired or one was refused.
use msos_autobuilder.Prelude.{
  ℕ, ◌≡◌, refl, Bool, true, false, ◌||◌, Option, none, List, [], ◌∷◌, map, Text, arith, Bool-cases,
  inl, inr, lookup, text_mem, if◌then◌else◌, Result, is_ok,
}
use msos_autobuilder.Leases.{aware, FileLeaseStore, acquire}
use msos_autobuilder.Leases.Exclusion.{acquire_error}
use msos_autobuilder.Leases.Traces.{Operation}
use msos_autobuilder.Routing.{ExecutionEvidence}
use msos_autobuilder.Workspaces.{WorkspacePolicy}
use msos_autobuilder.Scheduler.{
  ScheduledTask, SchedulerError, finish, work, lane_of, acquire_all, run_scheduled,
}
use msos_autobuilder.Scheduler.Leasing.{
  Progress, Progress-start, Progress-acquire, release_all-clears, is_ok-release_all,
}

module _ (owner : Text) (ttl : ℕ) (clock : Text → ℕ) where
  abbrev got : ScheduledTask → FileLeaseStore → Bool
  got item store = is_ok (acquire (lane_of item) owner ttl (aware (clock (lane_of item))) store).0

  abbrev held : ScheduledTask → FileLeaseStore → FileLeaseStore
  held item store = (acquire (lane_of item) owner ttl (aware (clock (lane_of item))) store).1

  acquire_all-step :
      (item : ScheduledTask) (items : List ScheduledTask) (acquired : List Text)
      (store : FileLeaseStore)
      → got item store ≡ true
      → acquire_all owner ttl clock (item ∷ items) acquired store
        ≡ acquire_all owner ttl clock items (lane_of item ∷ acquired) (held item store)
  unfolding acquire_all
  acquire_all-step item items acquired store h = ground arith

  acquire_all-refused :
      (item : ScheduledTask) (items : List ScheduledTask) (acquired : List Text)
      (store : FileLeaseStore)
      → got item store ≡ false
      → let all = acquire_all owner ttl clock (item ∷ items) acquired store in
        (is_ok all.0 ≡ false) × (all.1 ≡ acquired) × (all.2 ≡ store)
  unfolding acquire_all
  acquire_all-refused item items acquired store h =
      ground (arith, acquire_error (lane_of item) owner ttl (aware (clock (lane_of item))) store h)

  acquire_all-Progress :
      (start : FileLeaseStore) (items : List ScheduledTask) (acquired : List Text)
      (store : FileLeaseStore)
      → Progress owner start acquired store
      → let all = acquire_all owner ttl clock items acquired store in
        Progress owner start all.1 all.2
  acquire_all-Progress start [] acquired store p = unfold acquire_all in p
  acquire_all-Progress start (item ∷ items) acquired store p = elim (Bool-cases (got item store)) [
    | inl returned ↦ rw (acquire_all-step item items acquired store returned) (
        acquire_all-Progress start items (lane_of item ∷ acquired) (held item store) (
          Progress-acquire owner (lane_of item) ttl (clock (lane_of item)) start acquired store p
            returned))
    | inr raised ↦
        let (_, same, kept) = acquire_all-refused item items acquired store raised in
        rw (same, kept) p
  ]

  -- A loop that ends has acquired every lane.
  acquire_all-members :
      (items : List ScheduledTask) (acquired : List Text) (store : FileLeaseStore) (j : Text)
      → is_ok (acquire_all owner ttl clock items acquired store).0 ≡ true
      → text_mem j (acquire_all owner ttl clock items acquired store).1
        ≡ (text_mem j (map lane_of items) || text_mem j acquired)
  unfolding text_mem
  acquire_all-members [] acquired store j h = unfold acquire_all in refl
  acquire_all-members (item ∷ items) acquired store j h = elim (Bool-cases (got item store)) [
    | inl returned ↦
        let step = acquire_all-step item items acquired store returned in
        rw step (
          ground (
            arith,
            acquire_all-members items (lane_of item ∷ acquired) (held item store) j (rw step at h),
          ))
    | inr raised ↦ cc (h, (acquire_all-refused item items acquired store raised).0)
  ]

finish_clears :
    (owner : Text) (acquired : List Text)
    (block : Result SchedulerError (List ExecutionEvidence) × FileLeaseStore) (j : Text)
    → is_ok (finish owner acquired block).0 ≡ true
    → text_mem j acquired ≡ true
    → lookup j (finish owner acquired block).1.leases ≡ none
finish_clears owner acquired block j h m =
    ground (arith, release_all-clears owner acquired block.1 j)

module _ (policy : WorkspacePolicy) (owner : Text) (ttl : ℕ) (clock : Text → ℕ)
    (interval : Option ℕ) (during : List Operation) (scheduled : List ScheduledTask)
    (store : FileLeaseStore) where
  -- If a lane is refused, the run raises; the lanes acquired before it are left without a lease, and
  -- every other lane has the lease file that it had before the run.
  pub run_scheduled-rollback :
      (j : Text)
      → is_ok (acquire_all owner ttl clock scheduled [] store).0 ≡ false
      → let after = run_scheduled policy owner ttl clock interval during scheduled store in
        (is_ok after.0 ≡ false)
        × (lookup j after.1.leases ≡ (
            if text_mem j (acquire_all owner ttl clock scheduled [] store).1
            then none
            else lookup j store.leases))
  unfolding run_scheduled
  run_scheduled-rollback j refused =
      let progress =
        acquire_all-Progress owner ttl clock store scheduled [] store
          (Progress-start owner store) in
      let all = acquire_all owner ttl clock scheduled [] store in
      let released = is_ok-release_all owner all.1 all.2 progress.mine in
      ground (arith, progress.others j, release_all-clears owner all.1 all.2 j released)

  returned_finish :
      is_ok (run_scheduled policy owner ttl clock interval during scheduled store).0 ≡ true
      → let all = acquire_all owner ttl clock scheduled [] store in
        (is_ok all.0 ≡ true)
        × (run_scheduled policy owner ttl clock interval during scheduled store
            ≡ finish owner all.1 (work policy owner interval during scheduled all.2))
  unfolding run_scheduled
  returned_finish h = ground arith

  -- A run that returns its evidence leaves no lease in any lane of its tasks, whatever the heartbeat
  -- and other processes did in between.
  pub run_scheduled-releases :
      (j : Text)
      → is_ok (run_scheduled policy owner ttl clock interval during scheduled store).0 ≡ true
      → text_mem j (map lane_of scheduled) ≡ true
      → lookup j (run_scheduled policy owner ttl clock interval during scheduled store).1.leases
        ≡ none
  run_scheduled-releases j h m =
      let (got_all, e) = returned_finish h in
      let all = acquire_all owner ttl clock scheduled [] store in
      rw e (
        finish_clears owner all.1 (work policy owner interval during scheduled all.2) j (rw e at h)
          (ground (arith, acquire_all-members owner ttl clock scheduled [] store j got_all)))
