-- ===== src/Workspaces.antt =====
-- src/msos_autobuilder/workspaces.py on a POSIX system. `Path.resolve` is taken on a tree without
-- symbolic links: it drops `.` and lets `..` go up. The Windows branch of `_path_identity` is not
-- modelled: on POSIX it is the identity on resolved paths.
pub mod Expected
pub mod Tests
use msos_autobuilder.Prelude.{
  Bool, true, false, not, ◌&&◌, ◌||◌, List, [], ◌∷◌, ◌++◌, Text, codes, ◌==◌, all, if◌then◌else◌,
  Result, ok, err, raise_if, ◌>>=◌, ◌>>◌,
}
use msos_autobuilder.Text.{is_empty, is_id_char}
use msos_autobuilder.Models.{FilePath, BuildLane}

pub data WorkspaceIsolationError : Type 0 where
  workspace_inside_product runtime_inside_product roots_not_distinct : WorkspaceIsolationError
  unsafe_lane_id backend_path_mismatch lane_inside_product not_unique : WorkspaceIsolationError

-- The path without its last component; the parent of the root is the root.
unfoldable pub parent : FilePath → FilePath
parent [] = []
parent (c ∷ []) = []
parent (c ∷ d ∷ path) = c ∷ parent (d ∷ path)

-- One more component.
unfoldable pub descend : FilePath → Text → FilePath
unfolding parent
descend path c =
    if c == codes "." then path else if c == codes ".." then parent path else path ++ c ∷ []

unfoldable pub resolve_from : FilePath → FilePath → FilePath
resolve_from start [] = start
resolve_from start (c ∷ path) = resolve_from (descend start c) path

unfoldable pub resolve : FilePath → FilePath
unfolding resolve_from
resolve path = resolve_from [] path

unfoldable pub path_eq : FilePath → FilePath → Bool
path_eq [] [] = true
path_eq [] (d ∷ q) = false
path_eq (c ∷ p) [] = false
path_eq (c ∷ p) (d ∷ q) = c == d && path_eq p q

-- `_inside`: the common path of the two is the second.
unfoldable pub inside : FilePath → FilePath → Bool
inside path [] = true
inside [] (d ∷ parent) = false
inside (c ∷ path) (d ∷ parent) = c == d && inside path parent

pub record WorkspacePolicy : Type 0 where
  pub product_root : FilePath
  pub workspace_root : FilePath
  pub runtime_root : FilePath

-- The constructor and its `__post_init__`.
unfoldable pub make_policy :
    FilePath → FilePath → FilePath → Result WorkspaceIsolationError WorkspacePolicy
make_policy product_root workspace_root runtime_root = do
  let product = resolve product_root
  let workspace = resolve workspace_root
  let runtime = resolve runtime_root
  raise_if (inside workspace product) workspace_inside_product
  raise_if (inside runtime product) runtime_inside_product
  raise_if (path_eq workspace runtime) roots_not_distinct
  ok (record { product_root = product; workspace_root = workspace; runtime_root = runtime })

unfoldable pub is_safe_component : Text → Bool
unfolding all is_id_char
is_safe_component s = not (is_empty s) && all is_id_char s

unfoldable pub expected_path : WorkspacePolicy → BuildLane → Result WorkspaceIsolationError FilePath
expected_path policy lane = do
  raise_if (not (is_safe_component lane.lane_id)) unsafe_lane_id
  ok (resolve (policy.workspace_root ++ lane.lane_id ∷ []))

unfoldable pub validate_backend_path :
    WorkspacePolicy → BuildLane → FilePath → Result WorkspaceIsolationError FilePath
unfolding expected_path
validate_backend_path policy lane path = do
  let actual = resolve path
  expected ← expected_path policy lane
  raise_if (not (path_eq actual expected)) backend_path_mismatch
  raise_if (inside actual policy.product_root) lane_inside_product
  ok expected

unfoldable pub path_mem : FilePath → List FilePath → Bool
unfolding path_eq
path_mem p [] = false
path_mem p (q ∷ qs) = path_eq q p || path_mem p qs

unfoldable pub paths_distinct : List FilePath → Bool
unfolding path_mem
paths_distinct [] = true
paths_distinct (p ∷ ps) = not (path_mem p ps) && paths_distinct ps

-- The paths of `_plan` are resolved already, so `_path_identity` keeps them.
unfoldable pub assert_unique : List FilePath → Result WorkspaceIsolationError (Unit {0})
unfolding paths_distinct
assert_unique paths = raise_if (not (paths_distinct paths)) not_unique
