-- ===== src/Routing.antt =====
-- src/msos_autobuilder/routing.py, with the protocol of src/msos_autobuilder/backends/base.py: a
-- backend is a record of its capabilities and its methods.
pub mod Order
pub mod Choice
pub mod Tests
use msos_autobuilder.Prelude.{
  ℕ, Bool, true, false, not, ◌&&◌, ◌||◌, List, [], ◌∷◌, map, Text, nat_eq, ltb, ◌==◌, text_mem,
  all_distinct, all, keep, if◌then◌else◌, Result, ok, err, raise_if, ◌>>=◌, ◌>>◌,
}
use msos_autobuilder.Text.{text_lt}
use msos_autobuilder.Models.{
  CostClass, free, low, standard, premium, FilePath, WorkerCapabilities, BuildTask,
}

pub record ExecutionEvidence : Type 0 where
  pub task_id : Text
  pub backend_id : Text
  pub status : Text
  pub summary : Text
  pub changed_paths : List Text
  pub metadata : List (Text × Text)

-- `prepare_workspace` and `execute` may raise: `err` with the message. `collect_evidence` and `cancel` are called by nothing modelled here.
pub record WorkerBackend : Type 0 where
  pub capabilities : WorkerCapabilities
  pub claim : BuildTask → Bool
  pub prepare_workspace : BuildTask → FilePath → Result Text FilePath
  pub execute : BuildTask → FilePath → Result Text ExecutionEvidence

pub data RoutingError : Type 0 where
  no_backends backend_ids_not_unique : RoutingError
  unsupported_task : (task : Text) → RoutingError

unfoldable pub cost_rank : CostClass → ℕ
cost_rank free = 0
cost_rank low = 1
cost_rank standard = 2
cost_rank premium = 3

abbrev pub backend_id : WorkerBackend → Text
backend_id backend = backend.capabilities.backend_id

unfoldable pub make_router : List WorkerBackend → Result RoutingError (List WorkerBackend)
unfolding all_distinct
make_router [] = err no_backends
make_router (b ∷ bs) = do
  raise_if (not (all_distinct (map backend_id (b ∷ bs)))) backend_ids_not_unique
  ok (b ∷ bs)

-- `required_capabilities <= capabilities and claim(task)`
unfoldable pub is_compatible : BuildTask → WorkerBackend → Bool
unfolding all text_mem
is_compatible task backend =
    all (λ c. text_mem c backend.capabilities.capabilities) task.lane.required_capabilities
    && backend.claim task

pub record SortKey : Type 0 where
  pub exceeds_preference : Bool
  pub rank : ℕ
  pub ident : Text

unfoldable pub sort_key : BuildTask → WorkerBackend → SortKey
unfolding cost_rank
sort_key task backend =
    let rank = cost_rank backend.capabilities.cost_class in
    record {
      exceeds_preference = ltb (cost_rank task.lane.preferred_cost_class) rank;
      rank = rank;
      ident = backend_id backend;
    }

abbrev bool_lt : Bool → Bool → Bool
bool_lt false b = b
bool_lt true b = false

abbrev bool_eq : Bool → Bool → Bool
bool_eq true b = b
bool_eq false b = not b

-- Python's order of tuples.
unfoldable pub key_lt : SortKey → SortKey → Bool
key_lt a b =
    bool_lt a.exceeds_preference b.exceeds_preference
    || bool_eq a.exceeds_preference b.exceeds_preference
      && (ltb a.rank b.rank || nat_eq a.rank b.rank && text_lt a.ident b.ident)

unfoldable pub pick : BuildTask → WorkerBackend → WorkerBackend → WorkerBackend
pick task best b = if key_lt (sort_key task b) (sort_key task best) then b else best

-- `min(best, *backends, key=sort_key)`: the first of the smallest.
unfoldable pub min_by_key : BuildTask → WorkerBackend → List WorkerBackend → WorkerBackend
min_by_key task best [] = best
min_by_key task best (b ∷ bs) = min_by_key task (pick task best b) bs

first_choice : BuildTask → List WorkerBackend → Result RoutingError WorkerBackend
first_choice task [] = err (unsupported_task task.task_id)
first_choice task (b ∷ bs) = ok (min_by_key task b bs)

unfoldable pub select : BuildTask → List WorkerBackend → Result RoutingError WorkerBackend
unfolding first_choice keep
select task backends = first_choice task (keep (is_compatible task) backends)
