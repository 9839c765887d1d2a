-- ===== src/Lanes/Separation.antt =====
-- Lanes that the check accepts never hold the same changed path.
use msos_autobuilder.Prelude.{
  ◌≡◌, Bool, true, false, List, [], ◌∷◌, Text, map, arith, ==_iff, any, text_mem, All, AllPairs, ok,
  >>=-eq-ok, Bool-cases, inl, inr,
}
use msos_autobuilder.Models.{BuildLane}
use msos_autobuilder.Lanes.{
  ownership_root, roots_overlap, lanes_conflict, normalize, path_matches, check_against,
  check_pairs, assert_lanes_compatible, assert_changed_paths_allowed,
}
use msos_autobuilder.Lanes.Ownership.{IsRegular, path_matches-under, roots_overlap_of_under}

abbrev matches_some : List Text → Text → Bool
matches_some patterns path = any (λ pattern. path_matches pattern path) patterns

overlap_one :
    (a path : Text) (bs : List Text)
    → IsRegular a
    → path_matches a path ≡ true
    → All IsRegular bs
    → matches_some bs path ≡ true
    → any (λ b. roots_overlap (ownership_root a) b) (map ownership_root bs) ≡ true
unfolding any
overlap_one a path [] r m rs ms = ms
overlap_one a path (b ∷ bs) r m (rb, rs) ms = elim (Bool-cases (path_matches b path)) [
  | inl now ↦ rw (
      roots_overlap_of_under (ownership_root a) (ownership_root b) (normalize path)
        (path_matches-under a path r m) (path_matches-under b path rb now))
  | inr later ↦ ground (arith, overlap_one a path bs r m rs)
]

overlap_some :
    (ps qs : List Text) (path : Text)
    → All IsRegular ps
    → All IsRegular qs
    → matches_some ps path ≡ true
    → matches_some qs path ≡ true
    → any (λ a. any (λ b. roots_overlap a b) (map ownership_root qs)) (map ownership_root ps) ≡ true
unfolding any
overlap_some [] qs path rp rq mp mq = mp
overlap_some (p ∷ ps) qs path (r, rp) rq mp mq = elim (Bool-cases (path_matches p path)) [
  | inl now ↦ rw (overlap_one p path qs r now rq mq)
  | inr later ↦ ground (arith, overlap_some ps qs path rp rq)
]

-- The patterns of a lane are regular.
abbrev pub HasRegularPaths : BuildLane → Type 0
HasRegularPaths lane = All IsRegular lane.allowed_paths

lanes_conflict_of_shared :
    (left right : BuildLane) (path : Text)
    → HasRegularPaths left
    → HasRegularPaths right
    → matches_some left.allowed_paths path ≡ true
    → matches_some right.allowed_paths path ≡ true
    → lanes_conflict left right ≡ true
unfolding lanes_conflict
lanes_conflict_of_shared left right path = overlap_some left.allowed_paths right.allowed_paths path

-- A changed path that passes the check is matched by a pattern of the lane.
pub changed_path-matches :
    (lane : BuildLane) (path : Text) (paths : List Text)
    → assert_changed_paths_allowed lane paths ≡ ok tt
    → text_mem path paths ≡ true
    → (matches_some lane.allowed_paths path ≡ true)
      × (matches_some lane.forbidden_paths path ≡ false)
unfolding assert_changed_paths_allowed text_mem
changed_path-matches lane path [] h m = absurd (ground arith)
changed_path-matches lane path (q ∷ qs) h m =
    ground (arith, ==_iff q path, changed_path-matches lane path qs)

-- The two lanes hold no changed path together.
abbrev pub IsSeparate : BuildLane → BuildLane → Type 0
IsSeparate left right =
    (path : Text) (left_paths right_paths : List Text)
    → assert_changed_paths_allowed left left_paths ≡ ok tt
    → assert_changed_paths_allowed right right_paths ≡ ok tt
    → text_mem path left_paths ≡ true
    → text_mem path right_paths ≡ true
    → ⊥

IsSeparate-of_no_conflict :
    (left right : BuildLane)
    → HasRegularPaths left
    → HasRegularPaths right
    → lanes_conflict left right ≡ false
    → IsSeparate left right
IsSeparate-of_no_conflict left right rl rr free path ls rs hl hr ml mr = cc (
  free,
  lanes_conflict_of_shared left right path rl rr (changed_path-matches left path ls hl ml).0
      (changed_path-matches right path rs hr mr).0,
)

check_against-IsSeparate :
    (left : BuildLane) (lanes : List BuildLane)
    → HasRegularPaths left
    → All HasRegularPaths lanes
    → check_against left lanes ≡ ok tt
    → All (IsSeparate left) lanes
unfolding check_against
check_against-IsSeparate left [] r rs h = tt
check_against-IsSeparate left (right ∷ lanes) r (rr, rs) h = (
  IsSeparate-of_no_conflict left right r rr (ground arith),
  check_against-IsSeparate left lanes r rs (ground arith),
)

check_pairs-IsSeparate :
    (lanes : List BuildLane)
    → All HasRegularPaths lanes
    → check_pairs lanes ≡ ok tt
    → AllPairs IsSeparate lanes
unfolding check_pairs
check_pairs-IsSeparate [] rs h = tt
check_pairs-IsSeparate (left ∷ lanes) (r, rs) h =
    let (u, first, rest) = >>=-eq-ok (check_against left lanes) (λ _. check_pairs lanes) h in
    (check_against-IsSeparate left lanes r rs first, check_pairs-IsSeparate lanes rs rest)

-- If the lanes pass `assert_lanes_compatible` and every allowed pattern of theirs has no white
-- space round it and is a literal, or a literal before `/**`, then no path lies in change lists
-- of two of them that both pass `assert_changed_paths_allowed`.
pub compatible-IsSeparate :
    (lanes : List BuildLane)
    → All HasRegularPaths lanes
    → assert_lanes_compatible lanes ≡ ok tt
    → AllPairs IsSeparate lanes
unfolding assert_lanes_compatible
compatible-IsSeparate lanes rs h = check_pairs-IsSeparate lanes rs (ground arith)
