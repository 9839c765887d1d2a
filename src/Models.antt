-- ===== src/Models.antt =====
-- src/msos_autobuilder/models.py: the data that lanes, routing and the scheduler share, and the
-- checks of each `__post_init__`. A count that Python allows to be negative is a natural number
-- here: the checks refuse 0 as they refuse what is below it.
use msos_autobuilder.Prelude.{ℕ, Bool, List, [], ◌∷◌, Text, Result, ok, ltb, raise_if, ◌>>◌}
use msos_autobuilder.Text.{is_empty, is_space, strip}

pub data CostClass : Type 0 where
  free low standard premium : CostClass

-- An absolute path of the file system, as its components.
abbrev pub FilePath : Type 0
FilePath = List Text

pub record WorkerCapabilities : Type 0 where
  pub backend_id : Text
  pub capabilities : List Text
  pub max_concurrency : ℕ
  pub cost_class : CostClass
  pub timeout_seconds : ℕ

pub record BuildLane : Type 0 where
  pub lane_id : Text
  pub chapter_id : Text
  pub branch : Text
  pub layer : Text
  pub allowed_paths : List Text
  pub forbidden_paths : List Text
  pub required_capabilities : List Text
  pub preferred_cost_class : CostClass

pub record BuildTask : Type 0 where
  pub task_id : Text
  pub lane : BuildLane
  pub instruction : Text

-- The `ValueError`s of the constructors.
pub data ModelError : Type 0 where
  backend_id_required max_concurrency_below_one timeout_not_positive : ModelError
  lane_id_required chapter_id_required branch_required layer_required : ModelError
  allowed_paths_empty task_id_required instruction_required : ModelError

-- `not value.strip()`
unfoldable pub is_blank : Text → Bool
unfolding strip is_space
is_blank s = is_empty (strip is_space s)

abbrev is_nil : List Text → Bool
is_nil [] = Bool.true
is_nil (x ∷ xs) = Bool.false

unfoldable pub make_capabilities : WorkerCapabilities → Result ModelError WorkerCapabilities
unfolding is_blank
make_capabilities w = do
  raise_if (is_blank w.backend_id) backend_id_required
  raise_if (ltb w.max_concurrency 1) max_concurrency_below_one
  raise_if (ltb w.timeout_seconds 1) timeout_not_positive
  ok w

unfoldable pub make_lane : BuildLane → Result ModelError BuildLane
unfolding is_blank
make_lane lane = do
  raise_if (is_blank lane.lane_id) lane_id_required
  raise_if (is_blank lane.chapter_id) chapter_id_required
  raise_if (is_blank lane.branch) branch_required
  raise_if (is_blank lane.layer) layer_required
  raise_if (is_nil lane.allowed_paths) allowed_paths_empty
  ok lane

unfoldable pub make_task : BuildTask → Result ModelError BuildTask
unfolding is_blank
make_task task = do
  raise_if (is_blank task.task_id) task_id_required
  raise_if (is_blank task.instruction) instruction_required
  ok task
