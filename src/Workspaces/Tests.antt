-- ===== src/Workspaces/Tests.antt =====
-- A policy with its three roots, and the theorems at concrete inputs.
use msos_autobuilder.Prelude.{◌≡◌, refl, [], ◌∷◌, ◌++◌, Text, codes, ok, err, ◌==◌, all}
use msos_autobuilder.Text.{is_id_char}
use msos_autobuilder.Models.{FilePath, BuildLane, low}
use msos_autobuilder.Workspaces.{
  WorkspacePolicy, workspace_inside_product, backend_path_mismatch, parent, resolve, inside,
  descend, path_eq, make_policy, is_safe_component, expected_path, validate_backend_path,
}
use msos_autobuilder.Workspaces.Expected.{expected_path_lem, expected_path_dotdot}

abbrev pub lane : Text → BuildLane
lane name = record {
  lane_id = name;
  chapter_id = codes "chapter";
  branch = name;
  layer = codes "docs";
  allowed_paths = codes "docs/**" ∷ [];
  forbidden_paths = [];
  required_capabilities = [];
  preferred_cost_class = low;
}

abbrev pub product : FilePath
product = codes "srv" ∷ codes "product" ∷ []

abbrev pub workspace : FilePath
workspace = codes "srv" ∷ codes "work" ∷ []

abbrev pub runtime : FilePath
runtime = codes "srv" ∷ codes "run" ∷ []

abbrev pub policy : WorkspacePolicy
policy = record { product_root = product; workspace_root = workspace; runtime_root = runtime }

program : Unit {0}
unfolding make_policy resolve descend parent inside path_eq expected_path validate_backend_path
    is_safe_component is_id_char all ◌==◌
program = tt

made : make_policy product workspace runtime ≡ ok policy
unfolding program
made = refl

not_made :
    make_policy product (product ++ codes "tmp" ∷ codes ".." ∷ codes "w" ∷ []) runtime
    ≡ err workspace_inside_product
unfolding program
not_made = refl

wrong_path : validate_backend_path policy (lane (codes "a")) product ≡ err backend_path_mismatch
unfolding program
wrong_path = refl

expected_path_lem_example :
    expected_path policy (lane (codes "a")) ≡ ok (resolve workspace ++ codes "a" ∷ [])
unfolding program
expected_path_lem_example =
    expected_path_lem product workspace runtime policy (lane (codes "a")) refl refl refl

expected_path_dotdot_example :
    expected_path policy (lane (codes "..")) ≡ ok (parent (resolve workspace))
unfolding program
expected_path_dotdot_example =
    expected_path_dotdot product workspace runtime policy (lane (codes "..")) refl refl
