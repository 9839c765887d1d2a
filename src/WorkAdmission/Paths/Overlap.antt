-- ===== src/WorkAdmission/Paths/Overlap.antt =====
-- When `paths_overlap` of src/msos_autobuilder/work_admission.py returns the empty tuple.
use msos_autobuilder.Prelude.{
  ℕ, ◌≡◌, ◌∙◌, sym, subst, refl, Bool, true, false, not, ◌&&◌, List, [], ◌∷◌, ◌++◌, Text, codes,
  ◌==◌, ==_iff, all, All, arith, ok, ◌⊎◌, inl, inr, ◌↔◌, Bool-cases, raise_if, >>=-eq-ok,
}
use msos_autobuilder.Text.{is_slash, text_lt, strip, rstrip, starts_with}
use msos_autobuilder.WorkAdmission.Paths.{
  unsafe_ownership_path, clean_path, is_unsafe, add_sorted, normalize_paths, overlapping,
  add_overlaps, overlaps_from, paths_overlap,
}

abbrev pub is_empty_tuple : List Text → Bool
is_empty_tuple [] = true
is_empty_tuple (x ∷ xs) = false

-- What the code tests of each pair of paths.
abbrev disjoint : List Text → List Text → Bool
disjoint firsts seconds =
    all (λ first. all (λ second. not (overlapping first second)) seconds) firsts

-- The path is the root, or continues it after a slash.
abbrev pub IsUnder : (path root : Text) → Type 0
IsUnder path root = (path ≡ root) ⊎ ((rest : Text) × (path ≡ (root ++ codes "/") ++ rest))

-- No path of the one side is, or lies under, a path of the other.
abbrev pub AreDisjoint : List Text → List Text → Type 0
AreDisjoint firsts seconds =
    All (λ first. All (λ second. ¬ (IsUnder first second ⊎ IsUnder second first)) seconds) firsts

abbrev NoSlashEnds : List Text → Type 0
NoSlashEnds = All (λ path. rstrip is_slash path ≡ path)

starts_with-continues :
    (prefix text : Text) → starts_with prefix text ≡ true → (rest : Text) × (text ≡ prefix ++ rest)
unfolding starts_with
starts_with-continues [] text h = (text, refl)
starts_with-continues (c ∷ prefix) [] h = absurd (ground arith)
starts_with-continues (c ∷ prefix) (d ∷ text) h =
    let (rest, e) = starts_with-continues prefix text (ground arith) in
    let same : c ≡ d = ground arith in (rest, rw (same, e) refl)

starts_with-append : (prefix rest : Text) → starts_with prefix (prefix ++ rest) ≡ true
unfolding starts_with
starts_with-append [] rest = refl
starts_with-append (c ∷ prefix) rest = ground (arith, starts_with-append prefix rest)

is_empty_tuple-add_sorted : (t : Text) (us : List Text) → is_empty_tuple (add_sorted t us) ≡ false
unfolding add_sorted
is_empty_tuple-add_sorted t [] = refl
is_empty_tuple-add_sorted t (u ∷ us) = ground arith

is_empty_tuple-add_overlaps :
    (first : Text) (seconds overlaps : List Text)
    → is_empty_tuple (add_overlaps first seconds overlaps)
      ≡ (is_empty_tuple overlaps && all (λ second. not (overlapping first second)) seconds)
unfolding add_overlaps all
is_empty_tuple-add_overlaps first [] overlaps = ground arith
is_empty_tuple-add_overlaps first (second ∷ seconds) overlaps = ground (
  arith,
  is_empty_tuple-add_overlaps first seconds overlaps,
  is_empty_tuple-add_overlaps first seconds (add_sorted first overlaps),
  is_empty_tuple-add_overlaps first seconds (add_sorted second overlaps),
  is_empty_tuple-add_sorted first overlaps,
  is_empty_tuple-add_sorted second overlaps,
)

overlaps_from_lem :
    (firsts right seconds overlaps result : List Text)
    → normalize_paths right ≡ ok seconds
    → overlaps_from firsts right overlaps ≡ ok result
    → is_empty_tuple result ≡ (is_empty_tuple overlaps && disjoint firsts seconds)
unfolding overlaps_from all
overlaps_from_lem [] right seconds overlaps result h k = ground arith
overlaps_from_lem (first ∷ firsts) right seconds overlaps result h k = ground (
  arith,
  overlaps_from_lem firsts right seconds (add_overlaps first seconds overlaps) result h,
  is_empty_tuple-add_overlaps first seconds overlaps,
)

overlapping-IsUnder :
    (first second : Text)
    → rstrip is_slash first ≡ first
    → rstrip is_slash second ≡ second
    → overlapping first second ≡ true
    → IsUnder first second ⊎ IsUnder second first
unfolding overlapping
overlapping-IsUnder first second f s h = elim (Bool-cases (first == second)) [
  | inl same ↦ inl (inl ((==_iff first second).0 same))
  | inr other ↦ elim (Bool-cases (starts_with (second ++ codes "/") first)) [
    | inl under ↦ inl (inr (starts_with-continues (second ++ codes "/") first under))
    | inr above ↦ inr (
        inr (
          starts_with-continues (first ++ codes "/") second
            (let k = rw (f, s) at h in ground arith)))
  ]
]

IsUnder-overlapping :
    (first second : Text)
    → rstrip is_slash first ≡ first
    → rstrip is_slash second ≡ second
    → IsUnder first second ⊎ IsUnder second first
    → overlapping first second ≡ true
unfolding overlapping
IsUnder-overlapping first second f s (inl (inl same)) =
    rw (f, s) (ground (arith, ==_iff first second))
IsUnder-overlapping first second f s (inl (inr (rest, e))) =
    let under : starts_with (second ++ codes "/") first ≡ true =
      rw e (starts_with-append (second ++ codes "/") rest) in
    rw (f, s) (ground arith)
IsUnder-overlapping first second f s (inr (inl same)) =
    rw (f, s) (ground (arith, ==_iff second first, ==_iff first second))
IsUnder-overlapping first second f s (inr (inr (rest, e))) =
    let under : starts_with (first ++ codes "/") second ≡ true =
      rw e (starts_with-append (first ++ codes "/") rest) in
    rw (f, s) (ground arith)

rstrip-rstrip : (p : ℕ → Bool) (s : Text) → rstrip p (rstrip p s) ≡ rstrip p s
unfolding rstrip
rstrip-rstrip p [] = refl
rstrip-rstrip p (c ∷ s) = ground (arith, rstrip-rstrip p s)

add_sorted-NoSlashEnds :
    (t : Text) (us : List Text)
    → rstrip is_slash t ≡ t
    → NoSlashEnds us
    → NoSlashEnds (add_sorted t us)
unfolding add_sorted
add_sorted-NoSlashEnds t [] e h = (e, tt)
add_sorted-NoSlashEnds t (u ∷ us) e (first, rest) = elim (Bool-cases (t == u)) [
  | inl same ↦ rw same (first, rest)
  | inr other ↦ elim (Bool-cases (text_lt t u)) [
    | inl before ↦ rw (other, before) (e, (first, rest))
    | inr after ↦ rw (other, after) (first, add_sorted-NoSlashEnds t us e rest)
  ]
]

clean_path-NoSlashEnds : (raw : Text) → rstrip is_slash (clean_path raw) ≡ clean_path raw
unfolding clean_path strip
clean_path-NoSlashEnds raw = rstrip-rstrip is_slash _

normalize_paths-NoSlashEnds :
    (raws paths : List Text) → normalize_paths raws ≡ ok paths → NoSlashEnds paths
unfolding normalize_paths
normalize_paths-NoSlashEnds [] paths h = let e : [] ≡ paths = cc in subst NoSlashEnds e tt
normalize_paths-NoSlashEnds (raw ∷ raws) paths h =
    let (done, safe, h1) =
      >>=-eq-ok (raise_if (is_unsafe (clean_path raw)) (unsafe_ownership_path raw)) _ h in
    let (rest, is, h2) = >>=-eq-ok (normalize_paths raws) _ h1 in
    let e : add_sorted (clean_path raw) rest ≡ paths = cc in
    subst NoSlashEnds e (
      add_sorted-NoSlashEnds (clean_path raw) rest (clean_path-NoSlashEnds raw)
        (normalize_paths-NoSlashEnds raws rest is))

-- The test of one pair, for each pair.
apart-from :
    (first : Text) (seconds : List Text)
    → rstrip is_slash first ≡ first
    → NoSlashEnds seconds
    → all (λ second. not (overlapping first second)) seconds ≡ true
      ↔ All (λ second. ¬ (IsUnder first second ⊎ IsUnder second first)) seconds
unfolding all
apart-from first [] f s = (λ h. tt, λ h. refl)
apart-from first (second ∷ seconds) f (e, s) = (
  λ h. (
    λ under. absurd (let k = IsUnder-overlapping first second f e under in ground arith),
    (apart-from first seconds f s).0 (ground arith),
  ),
  λ (apart, rest).
      (let k = (apart-from first seconds f s).1 rest in
        elim (Bool-cases (overlapping first second)) [
          | inl overlap ↦ absurd (apart (overlapping-IsUnder first second f e overlap))
          | inr fine ↦ ground arith
        ]),
)

disjoint-AreDisjoint :
    (firsts seconds : List Text)
    → NoSlashEnds firsts
    → NoSlashEnds seconds
    → disjoint firsts seconds ≡ true ↔ AreDisjoint firsts seconds
unfolding all
disjoint-AreDisjoint [] seconds f s = (λ h. tt, λ h. refl)
disjoint-AreDisjoint (first ∷ firsts) seconds (e, f) s = (
  λ h. (
    (apart-from first seconds e s).0 (ground arith),
    (disjoint-AreDisjoint firsts seconds f s).0 (ground arith),
  ),
  λ (apart, rest).
      (let k = (apart-from first seconds e s).1 apart in
        let l = (disjoint-AreDisjoint firsts seconds f s).1 rest in ground arith),
)

is_empty_tuple_iff : (xs : List Text) → is_empty_tuple xs ≡ true ↔ xs ≡ []
is_empty_tuple_iff [] = (λ h. refl, λ h. refl)
is_empty_tuple_iff (x ∷ xs) = (λ h. absurd cc, λ h. absurd cc)

-- An answer of `paths_overlap` is empty exactly when no path of one side, as normalized, is a path of
-- the other side or continues one after a slash.
pub paths_overlap_lem :
    (left right firsts seconds result : List Text)
    → normalize_paths left ≡ ok firsts
    → normalize_paths right ≡ ok seconds
    → paths_overlap left right ≡ ok result
    → result ≡ [] ↔ AreDisjoint firsts seconds
unfolding paths_overlap
paths_overlap_lem left right firsts seconds result h k r =
    let tested : is_empty_tuple result ≡ disjoint firsts seconds =
      ground (arith, overlaps_from_lem firsts right seconds [] result k) in
    let apart =
      disjoint-AreDisjoint firsts seconds (normalize_paths-NoSlashEnds left firsts h)
        (normalize_paths-NoSlashEnds right seconds k) in
    (
      λ e. apart.0 (sym tested ∙ (is_empty_tuple_iff result).1 e),
      λ d. (is_empty_tuple_iff result).0 (tested ∙ apart.1 d),
    )
