-- ===== src/WorkAdmission/Paths.antt =====
-- `normalize_paths` and `paths_overlap` of src/msos_autobuilder/work_admission.py. A sorted tuple of
-- a set is a strictly increasing list.
pub mod Overlap
use msos_autobuilder.Prelude.{
  Bool, true, false, ◌&&◌, ◌||◌, List, [], ◌∷◌, ◌++◌, Text, codes, ◌==◌, leb, length, if◌then◌else◌,
  Result, ok, err, raise_if, ◌>>=◌, ◌>>◌,
}
use msos_autobuilder.Text.{
  is_empty, is_space, is_slash, strip, rstrip, forward_slashes, starts_with, contains, text_lt,
}

-- `AdmissionError` with its messages.
pub data AdmissionError : Type 0 where
  unsafe_ownership_path : Text → AdmissionError
  malformed_claim unsupported_terminal_state missing_claim : AdmissionError
  not_current_writer generation_mismatch active_generation_mismatch : AdmissionError

unfoldable pub clean_path : Text → Text
unfolding strip
clean_path raw = strip is_slash (forward_slashes (strip is_space raw))

unfoldable pub is_unsafe : Text → Bool
unfolding starts_with contains
is_unsafe text =
    is_empty text
    || starts_with (codes "../") text
    || contains (codes "/../") (codes "/" ++ (text ++ codes "/"))

-- `set.add` and `sorted` in one: a text that is there already is not added.
unfoldable pub add_sorted : Text → List Text → List Text
unfolding text_lt
add_sorted t [] = t ∷ []
add_sorted t (u ∷ us) =
    let later = u ∷ add_sorted t us in
    if t == u then u ∷ us else if text_lt t u then t ∷ u ∷ us else later

unfoldable pub normalize_paths : List Text → Result AdmissionError (List Text)
unfolding clean_path is_unsafe add_sorted
normalize_paths [] = ok []
normalize_paths (raw ∷ raws) = do
  raise_if (is_unsafe (clean_path raw)) (unsafe_ownership_path raw)
  rest ← normalize_paths raws
  ok (add_sorted (clean_path raw) rest)

unfoldable pub overlapping : Text → Text → Bool
unfolding starts_with rstrip ◌==◌
overlapping first second =
    first == second
    || starts_with (rstrip is_slash second ++ codes "/") first
    || starts_with (rstrip is_slash first ++ codes "/") second

-- The inner loop: what `first` adds to the overlaps.
unfoldable pub add_overlaps : Text → List Text → List Text → List Text
unfolding overlapping add_sorted
add_overlaps first [] overlaps = overlaps
add_overlaps first (second ∷ seconds) overlaps = add_overlaps first seconds (
    if overlapping first second
    then add_sorted (if leb (length second) (length first) then first else second) overlaps
    else overlaps)

-- The right side is normalized again for each path of the left side, so not at all for none.
unfoldable pub overlaps_from : List Text → List Text → List Text → Result AdmissionError (List Text)
unfolding normalize_paths add_overlaps
overlaps_from [] right overlaps = ok overlaps
overlaps_from (first ∷ firsts) right overlaps = do
  seconds ← normalize_paths right
  overlaps_from firsts right (add_overlaps first seconds overlaps)

unfoldable pub paths_overlap : List Text → List Text → Result AdmissionError (List Text)
unfolding overlaps_from normalize_paths
paths_overlap left right = do firsts ← normalize_paths left; overlaps_from firsts right []
