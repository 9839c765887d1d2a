-- ===== src/Lanes.antt =====
-- src/msos_autobuilder/lanes.py: which lanes may run beside one another, and which changed paths a
-- lane may hold. A Python set of roots is a list: only its members are asked for.
pub mod Ownership
pub mod Separation
pub mod Tests
use msos_autobuilder.Prelude.{
  ℕ, ◌-◌, Bool, true, not, ◌&&◌, ◌||◌, List, [], ◌∷◌, ◌++◌, map, Text, codes, ◌==◌, any,
  all_distinct, if◌then◌else◌, Result, ok, err, raise_if, ◌>>=◌, ◌>>◌,
}
use msos_autobuilder.Text.{
  is_empty, is_space, is_slash, is_dot_or_slash, strip, lstrip, rstrip, forward_slashes,
  starts_with, ends_with, drop_end, take_while,
}
use msos_autobuilder.Text.Fnmatch.{fnmatchcase, is_wildcard}
use msos_autobuilder.Models.{BuildLane}

-- `LaneConflictError` with its three messages.
pub data LaneConflict : Type 0 where
  lane_ids_not_unique branches_not_isolated : LaneConflict
  overlapping_ownership : (left right : Text) → LaneConflict

-- `LaneScopeError` with the lane and the path that it names.
pub data LaneScope : Type 0 where
  forbidden_path outside_lane : (lane path : Text) → LaneScope

-- The literal prefix of a pattern, before its first wildcard, without trailing slashes.
unfoldable pub ownership_root : Text → Text
unfolding rstrip lstrip take_while
ownership_root pattern =
    let normalized = lstrip is_dot_or_slash (strip is_space (forward_slashes pattern)) in
    rstrip is_slash (take_while (λ c. not (is_wildcard c)) normalized)

unfoldable pub roots_overlap : Text → Text → Bool
unfolding ◌==◌ starts_with
roots_overlap left right =
    if is_empty left || is_empty right
    then true
    else left == right
      || starts_with (right ++ codes "/") left
      || starts_with (left ++ codes "/") right

unfoldable pub lanes_conflict : BuildLane → BuildLane → Bool
unfolding any roots_overlap
lanes_conflict left right =
    let left_roots = map ownership_root left.allowed_paths in
    let right_roots = map ownership_root right.allowed_paths in
    any (λ a. any (λ b. roots_overlap a b) right_roots) left_roots

-- The pairs of `combinations(lanes, 2)` with this left lane.
check_against : BuildLane → List BuildLane → Result LaneConflict (Unit {0})
check_against left [] = ok tt
check_against left (right ∷ lanes) = do
  raise_if (lanes_conflict left right) (overlapping_ownership left.lane_id right.lane_id)
  check_against left lanes

check_pairs : List BuildLane → Result LaneConflict (Unit {0})
unfolding check_against
check_pairs [] = ok tt
check_pairs (left ∷ lanes) = do check_against left lanes; check_pairs lanes

unfoldable pub assert_lanes_compatible : List BuildLane → Result LaneConflict (Unit {0})
unfolding check_pairs all_distinct
assert_lanes_compatible lanes = do
  raise_if (not (all_distinct (map (λ l. l.lane_id) lanes))) lane_ids_not_unique
  raise_if (not (all_distinct (map (λ l. l.branch) lanes))) branches_not_isolated
  check_pairs lanes

-- A pattern or a path with forward slashes and without its leading dots and slashes.
unfoldable pub normalize : Text → Text
unfolding lstrip forward_slashes
normalize s = lstrip is_dot_or_slash (forward_slashes s)

unfoldable pub path_matches : Text → Text → Bool
unfolding ends_with drop_end rstrip starts_with ◌==◌ fnmatchcase
path_matches pattern path =
    let normalized_pattern = normalize pattern in
    let normalized_path = normalize path in
    if ends_with (codes "/**") normalized_pattern
    then (let root = rstrip is_slash (drop_end 3 normalized_pattern) in
        normalized_path == root || starts_with (root ++ codes "/") normalized_path)
    else fnmatchcase normalized_path normalized_pattern

unfoldable pub assert_changed_paths_allowed : BuildLane → List Text → Result LaneScope (Unit {0})
unfolding any
assert_changed_paths_allowed lane [] = ok tt
assert_changed_paths_allowed lane (path ∷ paths) = do
  raise_if (any (λ pattern. path_matches pattern path) lane.forbidden_paths)
      (forbidden_path lane.lane_id path)
  raise_if (not (any (λ pattern. path_matches pattern path) lane.allowed_paths))
      (outside_lane lane.lane_id path)
  assert_changed_paths_allowed lane paths
