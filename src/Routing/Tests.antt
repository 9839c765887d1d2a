-- ===== src/Routing/Tests.antt =====
-- A router of two backends, and the theorems at concrete inputs.
use msos_autobuilder.Prelude.{
  ◌≡◌, ◌↔◌, refl, true, false, List, [], ◌∷◌, All, ◌&&◌, Text, codes, ok, err, ◌==◌, all, text_mem,
  keep,
}
use msos_autobuilder.Text.{text_lt}
use msos_autobuilder.Models.{CostClass, free, low, premium, BuildTask}
use msos_autobuilder.Routing.{
  WorkerBackend, RoutingError, unsupported_task, make_router, is_compatible, sort_key, key_lt,
  select, min_by_key, pick,
}
use msos_autobuilder.Routing.Choice.{Listed, select_lem, Supports, select-unsupported_task}

abbrev backend : Text → List Text → CostClass → WorkerBackend
backend name skills cost = record {
  capabilities = record {
    backend_id = name;
    capabilities = skills;
    max_concurrency = 1;
    cost_class = cost;
    timeout_seconds = 60;
  };
  claim = λ task. true;
  prepare_workspace = λ task workspace. ok workspace;
  execute = λ task workspace. err (codes "not run");
}

abbrev pub task : BuildTask
task = record {
  task_id = codes "t1";
  lane = record {
    lane_id = codes "lane";
    chapter_id = codes "chapter";
    branch = codes "lane";
    layer = codes "docs";
    allowed_paths = codes "docs/**" ∷ [];
    forbidden_paths = [];
    required_capabilities = codes "code" ∷ [];
    preferred_cost_class = low;
  };
  instruction = codes "write";
}

abbrev dear : WorkerBackend
dear = backend (codes "a") (codes "code" ∷ []) premium

abbrev cheap : WorkerBackend
cheap = backend (codes "b") (codes "plan" ∷ codes "code" ∷ []) free

program : Unit {0}
unfolding select min_by_key pick is_compatible sort_key key_lt text_lt make_router ◌==◌ all text_mem
    keep
program = tt

select-cheap : select task (dear ∷ cheap ∷ []) ≡ ok cheap
unfolding program
select-cheap = refl

select_none : select task (backend (codes "c") [] free ∷ []) ≡ err (unsupported_task (codes "t1"))
unfolding program
select_none = refl

router_twins : make_router (dear ∷ dear ∷ []) ≡ err RoutingError.backend_ids_not_unique
unfolding program
router_twins = refl

select_lem_example :
    Listed cheap (dear ∷ cheap ∷ [])
    × (is_compatible task cheap ≡ true)
    × All
        (λ c. (is_compatible task c && key_lt (sort_key task c) (sort_key task cheap)) ≡ false)
        (dear ∷ cheap ∷ [])
select_lem_example = select_lem task (dear ∷ cheap ∷ []) cheap select-cheap

select-unsupported_task_example :
    select task (dear ∷ cheap ∷ []) ≡ err (unsupported_task task.task_id)
    ↔ All (λ b. ¬ Supports task b) (dear ∷ cheap ∷ [])
select-unsupported_task_example = select-unsupported_task task (dear ∷ cheap ∷ [])
