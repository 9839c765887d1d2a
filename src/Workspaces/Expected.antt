-- ===== src/Workspaces/Expected.antt =====
-- Where a lane works: below the workspace root, each lane in a directory of its own.
use msos_autobuilder.Prelude.{
  ◌≡◌, refl, ap, sym, ◌∙◌, Bool, true, not, ◌||◌, List, [], ◌∷◌, ◌++◌, Text, codes, ◌==◌, ==_refl,
  all, map, arith, text_mem, all_distinct, ok,
}
use msos_autobuilder.Text.{is_id_char}
use msos_autobuilder.Models.{FilePath, BuildLane}
use msos_autobuilder.Workspaces.{
  WorkspacePolicy, parent, descend, resolve_from, resolve, path_eq, make_policy, is_safe_component,
  expected_path, path_mem, paths_distinct,
}

-- A name that `resolve` keeps.
abbrev pub is_plain : Text → Bool
is_plain c = not (c == codes "." || c == codes "..")

parent-plain : (p : FilePath) → all is_plain p ≡ true → all is_plain (parent p) ≡ true
unfolding parent all
parent-plain [] h = refl
parent-plain (c ∷ []) h = refl
parent-plain (c ∷ d ∷ p) h = ground (arith, parent-plain (d ∷ p))

snoc-plain :
    (p : FilePath) (c : Text)
    → all is_plain p ≡ true
    → is_plain c ≡ true
    → all is_plain (p ++ c ∷ []) ≡ true
unfolding all
snoc-plain [] c h k = ground arith
snoc-plain (d ∷ p) c h k = ground (arith, snoc-plain p c)

descend-plain :
    (p : FilePath) (c : Text) → all is_plain p ≡ true → all is_plain (descend p c) ≡ true
unfolding descend
descend-plain p c h = ground (arith, parent-plain p h, snoc-plain p c h)

resolve_from-plain :
    (start path : FilePath)
    → all is_plain start ≡ true
    → all is_plain (resolve_from start path) ≡ true
unfolding resolve_from
resolve_from-plain start [] h = h
resolve_from-plain start (c ∷ path) h =
    resolve_from-plain (descend start c) path (descend-plain start c h)

append_snoc : (p : FilePath) (c : Text) (q : FilePath) → (p ++ c ∷ []) ++ q ≡ p ++ (c ∷ q)
append_snoc [] c q = refl
append_snoc (d ∷ p) c q = ap (λ r. d ∷ r) (append_snoc p c q)

append_nil : (p : FilePath) → p ++ [] ≡ p
append_nil [] = refl
append_nil (d ∷ p) = ap (λ r. d ∷ r) (append_nil p)

resolve_from_plain :
    (start path : FilePath) → all is_plain path ≡ true → resolve_from start path ≡ start ++ path
unfolding resolve_from descend all
resolve_from_plain start [] h = sym (append_nil start)
resolve_from_plain start (c ∷ path) h =
    ground (arith, resolve_from_plain (start ++ c ∷ []) path, append_snoc start c path)

resolve_from-snoc :
    (start path : FilePath) (c : Text)
    → resolve_from start (path ++ c ∷ []) ≡ descend (resolve_from start path) c
unfolding resolve_from
resolve_from-snoc start [] c = refl
resolve_from-snoc start (d ∷ path) c = resolve_from-snoc (descend start d) path c

resolve_idem : (path : FilePath) → resolve (resolve path) ≡ resolve path
unfolding resolve
resolve_idem path =
    resolve_from_plain [] (resolve_from [] path) (resolve_from-plain [] path (unfold all in refl))

-- A name below a resolved path.
pub resolve-snoc :
    (path : FilePath) (c : Text) → resolve (resolve path ++ c ∷ []) ≡ descend (resolve path) c
resolve-snoc path c =
    unfold resolve in
    resolve_from-snoc [] (resolve path) c ∙ ap (λ p. descend p c) (resolve_idem path)

module _ (product workspace runtime : FilePath) (policy : WorkspacePolicy) (lane : BuildLane)
    (made : make_policy product workspace runtime ≡ ok policy) where
  workspace_root_lem : policy.workspace_root ≡ resolve workspace
  unfolding make_policy
  workspace_root_lem = ground arith

  -- Under a policy that was made, the path of a lane whose identifier is safe and is neither `.` nor
  -- `..` is the directory of that name in the resolved workspace root.
  pub expected_path_lem :
      is_safe_component lane.lane_id ≡ true
      → is_plain lane.lane_id ≡ true
      → expected_path policy lane ≡ ok (resolve workspace ++ lane.lane_id ∷ [])
  unfolding expected_path descend
  expected_path_lem safe plain =
      rw (safe, workspace_root_lem) (rw (resolve-snoc workspace lane.lane_id) (ground arith))

  -- A lane with the identifier `..`, which the pattern for safe components lets through, gets the
  -- parent of the workspace root, outside it, for a path.
  pub expected_path_dotdot :
      lane.lane_id ≡ codes ".." → expected_path policy lane ≡ ok (parent (resolve workspace))
  unfolding expected_path descend is_safe_component is_id_char all ◌==◌
  expected_path_dotdot e = rw (e, workspace_root_lem) (rw (resolve-snoc workspace (codes "..")))

path_eq-snoc : (p : FilePath) (c d : Text) → path_eq (p ++ c ∷ []) (p ++ d ∷ []) ≡ (c == d)
unfolding path_eq
path_eq-snoc [] c d = ground arith
path_eq-snoc (x ∷ p) c d = rw (==_refl x) (path_eq-snoc p c d)

path_mem-snoc :
    (p : FilePath) (c : Text) (names : List Text)
    → path_mem (p ++ c ∷ []) (map (λ d. p ++ d ∷ []) names) ≡ text_mem c names
unfolding path_mem text_mem
path_mem-snoc p c [] = refl
path_mem-snoc p c (d ∷ names) = rw (path_eq-snoc p d c, path_mem-snoc p c names)

-- Directories of distinct names in one place are distinct.
pub paths_distinct-snoc :
    (p : FilePath) (names : List Text)
    → paths_distinct (map (λ d. p ++ d ∷ []) names) ≡ all_distinct names
unfolding paths_distinct all_distinct
paths_distinct-snoc p [] = refl
paths_distinct-snoc p (d ∷ names) = rw (path_mem-snoc p d names, paths_distinct-snoc p names)
