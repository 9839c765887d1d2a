-- ===== src/Lanes/Tests.antt =====
-- Runs of the lane checks, and the theorems at concrete inputs.
use msos_autobuilder.Prelude.{
  ◌≡◌, refl, inr, true, false, List, [], ◌∷◌, Text, codes, ok, err, AllPairs, ◌==◌, all,
}
use msos_autobuilder.Text.{is_space, strip, forward_slashes, is_dot_or_slash, is_slash}
use msos_autobuilder.Text.Fnmatch.{fnmatchcase, is_wildcard}
use msos_autobuilder.Models.{BuildLane, low}
use msos_autobuilder.Lanes.{
  lanes_conflict, normalize, ownership_root, roots_overlap, path_matches, assert_lanes_compatible,
  assert_changed_paths_allowed, overlapping_ownership, outside_lane,
}
use msos_autobuilder.Lanes.Separation.{HasRegularPaths, IsSeparate, compatible-IsSeparate}

abbrev lane : Text → List Text → BuildLane
lane name paths = record {
  lane_id = name;
  chapter_id = codes "chapter";
  branch = name;
  layer = codes "runtime";
  allowed_paths = paths;
  forbidden_paths = [];
  required_capabilities = [];
  preferred_cost_class = low;
}

abbrev docs : BuildLane
docs = lane (codes "docs") (codes "docs/**" ∷ [])

abbrev source : BuildLane
source = lane (codes "source") (codes "src/app/**" ∷ [])

program : Unit {0}
unfolding assert_lanes_compatible assert_changed_paths_allowed ownership_root roots_overlap
    path_matches normalize lanes_conflict strip forward_slashes is_space is_dot_or_slash is_wildcard
    is_slash fnmatchcase ◌==◌ all
program = tt

fnmatchcase_class : fnmatchcase (codes "a3/x-y") (codes "a[0-9]/*[!b]") ≡ true
unfolding program
fnmatchcase_class = refl

ownership_root_wildcard : ownership_root (codes "./src/app/*.py") ≡ codes "src/app"
unfolding program
ownership_root_wildcard = refl

source_and_docs : assert_lanes_compatible (docs ∷ source ∷ []) ≡ ok tt
unfolding program
source_and_docs = refl

source_and_all :
    assert_lanes_compatible (source ∷ lane (codes "all") (codes "src/**" ∷ []) ∷ [])
    ≡ err (overlapping_ownership (codes "source") (codes "all"))
unfolding program
source_and_all = refl

outside_docs :
    assert_changed_paths_allowed docs (codes "docs/a.md" ∷ codes "src/a.py" ∷ [])
    ≡ err (outside_lane (codes "docs") (codes "src/a.py"))
unfolding program
outside_docs = refl

-- A wildcard inside a segment: the roots do not overlap, and both patterns match the path.
segment_wildcard :
    (roots_overlap (ownership_root (codes "src/ap*")) (ownership_root (codes "src/app/**")) ≡ false)
    × (path_matches (codes "src/ap*") (codes "src/app/main.py") ≡ true)
    × (path_matches (codes "src/app/**") (codes "src/app/main.py") ≡ true)
unfolding program
segment_wildcard = (refl, refl, refl)

-- `lstrip("./")` drops every leading dot and slash: a hidden or a parent directory is taken for a
-- plain one.
hidden_directory :
    (path_matches (codes "github/**") (codes ".github/workflows/ci.yml") ≡ true)
    × (path_matches (codes "src/**") (codes "../src/main.py") ≡ true)
unfolding program
hidden_directory = (refl, refl)

docs-regular : HasRegularPaths docs
unfolding program
docs-regular = ((refl, inr (codes "docs", refl, refl)), tt)

source-regular : HasRegularPaths source
unfolding program
source-regular = ((refl, inr (codes "src/app", refl, refl)), tt)

compatible-IsSeparate_example : AllPairs IsSeparate (docs ∷ source ∷ [])
compatible-IsSeparate_example =
    compatible-IsSeparate (docs ∷ source ∷ []) (docs-regular, (source-regular, tt)) source_and_docs
