-- ===== src/Scheduler/Planning.antt =====
-- What a plan that was made satisfies.
use msos_autobuilder.Prelude.{
  ◌≡◌, ◌≢◌, refl, ap, ◌∙◌, true, List, [], ◌∷◌, ◌++◌, map, All, arith, all_distinct, Result, ok,
  err, map_err, >>=-eq-ok,
}
use msos_autobuilder.Models.{FilePath, BuildTask}
use msos_autobuilder.Lanes.{assert_lanes_compatible}
use msos_autobuilder.Routing.{WorkerBackend, is_compatible, select}
use msos_autobuilder.Routing.Choice.{Listed, select_lem}
use msos_autobuilder.Workspaces.{
  WorkspacePolicy, resolve, make_policy, is_safe_component, expected_path, paths_distinct,
  assert_unique, not_unique,
}
use msos_autobuilder.Workspaces.Expected.{is_plain, expected_path_lem, paths_distinct-snoc}
use msos_autobuilder.Scheduler.{SchedulerError, ScheduledTask, workspaces, routing, assign, plan}

-- The backend is one of the router's and supports the task, which it claims; the workspace is the
-- policy's for the task's lane.
abbrev pub IsAssigned : List WorkerBackend → WorkspacePolicy → ScheduledTask → Type 0
IsAssigned backends policy item =
    Listed item.backend backends
    × (is_compatible item.task item.backend ≡ true)
    × (expected_path policy item.task.lane ≡ ok item.workspace)

map_err-ok {ℓ κ μ} :
    {E : Type ℓ} {F : Type κ} {A : Type μ} (f : E → F) (r : Result E A) (a : A)
    → map_err f r ≡ ok a
    → r ≡ ok a
map_err-ok f (ok b) a h = cc
map_err-ok f (err e) a h = cc

module _ (backends : List WorkerBackend) (policy : WorkspacePolicy) where
  abbrev Assigned : List BuildTask → List ScheduledTask → Type 0
  Assigned tasks planned =
      (map (λ item. item.task) planned ≡ tasks) × All (IsAssigned backends policy) planned

  assign-Assigned :
      (tasks : List BuildTask) (planned : List ScheduledTask)
      → assign backends policy tasks ≡ ok planned
      → Assigned tasks planned
  unfolding assign
  assign-Assigned [] planned h = let e : planned ≡ [] = ground arith in rw e (refl, tt)
  assign-Assigned (task ∷ tasks) planned h =
      let (b, selected, h') = >>=-eq-ok (map_err routing (select task backends)) _ h in
      let (p, expected, h'') =
        >>=-eq-ok (map_err workspaces (expected_path policy task.lane)) _ h' in
      let (rest, assigned, h''') = >>=-eq-ok (assign backends policy tasks) _ h'' in
      let (same, each) = assign-Assigned tasks rest assigned in
      let (listed, compatible, _) = select_lem task backends b (map_err-ok routing _ b selected) in
      let e : planned ≡ record { task = task; backend = b; workspace = p } ∷ rest = ground arith in
      rw e (
        ap (λ ts. task ∷ ts) same,
        ((listed, compatible, map_err-ok workspaces _ p expected), each),
      )

  -- A plan has one item for each task, in order; each item's backend is one of the router's that
  -- supports and claims the task, each workspace is the policy's for the lane; the lanes pass
  -- `assert_lanes_compatible`, and the workspaces are distinct.
  pub plan_lem :
      (tasks : List BuildTask) (planned : List ScheduledTask)
      → plan backends policy tasks ≡ ok planned
      → (map (λ item. item.task) planned ≡ tasks)
        × All (IsAssigned backends policy) planned
        × (assert_lanes_compatible (map (λ t. t.lane) tasks) ≡ ok tt)
        × (paths_distinct (map (λ item. item.workspace) planned) ≡ true)
  unfolding plan assert_unique
  plan_lem tasks planned h =
      let compatible : assert_lanes_compatible (map (λ t. t.lane) tasks) ≡ ok tt = ground arith in
      let assigned : assign backends policy tasks ≡ ok planned = ground arith in
      let distinct : paths_distinct (map (λ item. item.workspace) planned) ≡ true = ground arith in
      let (same, each) = assign-Assigned tasks planned assigned in
      (same, each, compatible, distinct)

-- The task's lane has a name that stays below the workspace root.
abbrev pub HasPlainLane : BuildTask → Type 0
HasPlainLane task =
    (is_safe_component task.lane.lane_id ≡ true) × (is_plain task.lane.lane_id ≡ true)

module _ (backends : List WorkerBackend) (product workspace runtime : FilePath)
    (policy : WorkspacePolicy) where
  workspaces_of_assign :
      (tasks : List BuildTask) (planned : List ScheduledTask)
      → make_policy product workspace runtime ≡ ok policy
      → All HasPlainLane tasks
      → assign backends policy tasks ≡ ok planned
      → map (λ item. item.workspace) planned
        ≡ map (λ d. resolve workspace ++ d ∷ []) (map (λ t. t.lane.lane_id) tasks)
  unfolding assign
  workspaces_of_assign [] planned made plain h = ground arith
  workspaces_of_assign (task ∷ tasks) planned made ((safe, name), plain) h =
      let here = expected_path_lem product workspace runtime policy task.lane made safe name in
      let (b, selected, h') = >>=-eq-ok (map_err routing (select task backends)) _ h in
      let (p, expected, h'') =
        >>=-eq-ok (map_err workspaces (expected_path policy task.lane)) _ h' in
      let (rest, assigned, h''') = >>=-eq-ok (assign backends policy tasks) _ h'' in
      let e : planned ≡ record { task = task; backend = b; workspace = p } ∷ rest = ground arith in
      let path : p ≡ resolve workspace ++ task.lane.lane_id ∷ [] = ground arith in
      rw (e, path)
        (ap (λ ps. (resolve workspace ++ task.lane.lane_id ∷ []) ∷ ps)
          (workspaces_of_assign tasks rest made plain assigned))

  assign-ne-not_unique :
      (tasks : List BuildTask)
      → make_policy product workspace runtime ≡ ok policy
      → All HasPlainLane tasks
      → assign backends policy tasks ≢ err (workspaces not_unique)
  unfolding assign
  assign-ne-not_unique [] made plain h = ground arith
  assign-ne-not_unique (task ∷ tasks) made ((safe, name), plain) h = ground (
    arith,
    expected_path_lem product workspace runtime policy task.lane made safe name,
    assign-ne-not_unique tasks made plain,
  )

  lane_ids :
      (tasks : List BuildTask)
      → map (λ l. l.lane_id) (map (λ t. t.lane) tasks) ≡ map (λ t. t.lane.lane_id) tasks
  lane_ids [] = refl
  lane_ids (task ∷ tasks) = ap (λ ids. task.lane.lane_id ∷ ids) (lane_ids tasks)

  distinct_of_compatible :
      (tasks : List BuildTask)
      → assert_lanes_compatible (map (λ t. t.lane) tasks) ≡ ok tt
      → all_distinct (map (λ t. t.lane.lane_id) tasks) ≡ true
  unfolding assert_lanes_compatible
  distinct_of_compatible tasks h = rw (← lane_ids tasks) (ground arith)

  distinct_of_assign :
      (tasks : List BuildTask) (planned : List ScheduledTask)
      → make_policy product workspace runtime ≡ ok policy
      → All HasPlainLane tasks
      → assert_lanes_compatible (map (λ t. t.lane) tasks) ≡ ok tt
      → assign backends policy tasks ≡ ok planned
      → paths_distinct (map (λ item. item.workspace) planned) ≡ true
  distinct_of_assign tasks planned made plain compatible h =
      rw (workspaces_of_assign tasks planned made plain h) (
        paths_distinct-snoc (resolve workspace) (map (λ t. t.lane.lane_id) tasks)
        ∙ distinct_of_compatible tasks compatible)

  -- With a policy that was made and lanes whose identifiers are safe and neither `.` nor `..`, a plan
  -- is never refused for workspaces that are not unique.
  pub plan-ne-not_unique :
      (tasks : List BuildTask)
      → make_policy product workspace runtime ≡ ok policy
      → All HasPlainLane tasks
      → plan backends policy tasks ≢ err (workspaces not_unique)
  unfolding plan assert_unique
  plan-ne-not_unique tasks made plain h = no_error (assign backends policy tasks) refl
    where
      no_error :
          (r : Result SchedulerError (List ScheduledTask)) → assign backends policy tasks ≡ r → ⊥
      no_error (err e) a = ground (arith, assign-ne-not_unique tasks made plain)
      no_error (ok planned) a = ground (arith, distinct_of_assign tasks planned made plain)
