-- ===== src/Lanes/Ownership.antt =====
-- One pattern: what it matches lies under its ownership root, if it is a directory pattern or has
-- no wildcard; and two roots above one path overlap.
use msos_autobuilder.Prelude.{
  ◌≡◌, refl, ap, sym, ◌∙◌, ◌⊎◌, inl, inr, Bool, true, false, not, ◌||◌, [], ◌∷◌, ◌++◌, Text, codes,
  all, arith, ◌==◌, ==_iff, ==_refl, Bool-cases,
}
use msos_autobuilder.Text.{
  is_space, is_slash, strip, rstrip, forward_slashes, starts_with, ends_with, take_while,
}
use msos_autobuilder.Text.Laws.{drop_end-append, ends_with→append, take_while-all}
use msos_autobuilder.Text.Fnmatch.{is_wildcard}
use msos_autobuilder.Text.Fnmatch.Literal.{is_literal, fnmatchcase-literal}
use msos_autobuilder.Lanes.{ownership_root, roots_overlap, normalize, path_matches}

-- The path is the root or stands in the directory of that name.
abbrev pub under : Text → Text → Bool
under root path = path == root || starts_with (root ++ codes "/") path

-- A pattern with no white space round it that is a literal, or a literal before `/**`.
abbrev pub IsRegular : Text → Type 0
IsRegular pattern =
    (strip is_space (forward_slashes pattern) ≡ forward_slashes pattern)
    × ((is_literal (normalize pattern) ≡ true)
        ⊎ ((root : Text) × (normalize pattern ≡ root ++ codes "/**") × (is_literal root ≡ true)))

under-rstrip : (s : Text) → under (rstrip is_slash s) s ≡ true
unfolding rstrip is_slash starts_with ◌==◌
under-rstrip [] = refl
under-rstrip (c ∷ s) = ground (arith, under-rstrip s, ==_refl s)

under_both :
    (a b path : Text) → under a path ≡ true → under b path ≡ true → (under a b || under b a) ≡ true
unfolding starts_with ◌==◌
under_both [] [] path h k = refl
under_both [] (y ∷ b) [] h k = ground arith
under_both [] (y ∷ b) (z ∷ path) h k = ground arith
under_both (x ∷ a) [] [] h k = ground arith
under_both (x ∷ a) [] (z ∷ path) h k = ground arith
under_both (x ∷ a) (y ∷ b) [] h k = ground arith
under_both (x ∷ a) (y ∷ b) (z ∷ path) h k = ground (arith, under_both a b path)

pub roots_overlap_of_under :
    (a b path : Text) → under a path ≡ true → under b path ≡ true → roots_overlap a b ≡ true
unfolding roots_overlap
roots_overlap_of_under a b path h k =
    ground (arith, under_both a b path h k, ==_iff a b, ==_iff b a)

ownership_root-literal :
    (p : Text)
    → strip is_space (forward_slashes p) ≡ forward_slashes p
    → is_literal (normalize p) ≡ true
    → ownership_root p ≡ rstrip is_slash (normalize p)
unfolding ownership_root normalize
ownership_root-literal p h k = rw h (ap (rstrip is_slash) (take_while-all _ _ k))

take_while-directory :
    (root : Text)
    → is_literal root ≡ true
    → take_while (λ c. not (is_wildcard c)) (root ++ codes "/**") ≡ root ++ codes "/"
unfolding take_while is_wildcard all
take_while-directory [] h = refl
take_while-directory (c ∷ root) h = ground (arith, take_while-directory root)

rstrip-directory : (root : Text) → rstrip is_slash (root ++ codes "/") ≡ rstrip is_slash root
unfolding rstrip is_slash
rstrip-directory [] = refl
rstrip-directory (c ∷ root) = rw (rstrip-directory root)

ownership_root-directory :
    (p root : Text)
    → strip is_space (forward_slashes p) ≡ forward_slashes p
    → normalize p ≡ root ++ codes "/**"
    → is_literal root ≡ true
    → ownership_root p ≡ rstrip is_slash root
unfolding ownership_root normalize
ownership_root-directory p root h e k =
    rw h (rw e (ap (rstrip is_slash) (take_while-directory root k) ∙ rstrip-directory root))

literal-append : (s t : Text) → is_literal (s ++ t) ≡ true → is_literal t ≡ true
unfolding all
literal-append [] t h = h
literal-append (c ∷ s) t h = literal-append s t (ground arith)

literal_not_directory : (s : Text) → is_literal s ≡ true → ends_with (codes "/**") s ≡ false
unfolding all is_wildcard
literal_not_directory s h = elim (Bool-cases (ends_with (codes "/**") s)) [
  | inl directory ↦
      let (t, e) = ends_with→append (codes "/**") s directory in
      absurd (ground (arith, literal-append t (codes "/**") (rw e at h)))
  | inr other ↦ other
]

ends_with-append : (t p : Text) → ends_with p (t ++ p) ≡ true
unfolding ends_with
ends_with-append [] [] = ==_refl []
ends_with-append [] (c ∷ p) = rw (==_refl (c ∷ p))
ends_with-append (c ∷ t) p = ground (arith, ends_with-append t p)

path_matches-literal :
    (pattern path : Text)
    → is_literal (normalize pattern) ≡ true
    → path_matches pattern path ≡ true
    → normalize path ≡ normalize pattern
unfolding path_matches
path_matches-literal pattern path literal m =
    fnmatchcase-literal (normalize path) (normalize pattern) literal
      (rw (literal_not_directory (normalize pattern) literal) at m)

path_matches-directory :
    (pattern path root : Text)
    → normalize pattern ≡ root ++ codes "/**"
    → path_matches pattern path ≡ under (rstrip is_slash root) (normalize path)
unfolding path_matches
path_matches-directory pattern path root e =
    rw e (rw (ends_with-append root (codes "/**"), drop_end-append root (codes "/**")))

-- What a regular pattern matches lies under the pattern's ownership root.
pub path_matches-under :
    (pattern path : Text)
    → IsRegular pattern
    → path_matches pattern path ≡ true
    → under (ownership_root pattern) (normalize path) ≡ true
path_matches-under pattern path (h, inl literal) m =
    rw (ownership_root-literal pattern h literal, path_matches-literal pattern path literal m)
      (under-rstrip (normalize pattern))
path_matches-under pattern path (h, inr (root, e, literal)) m =
    rw (ownership_root-directory pattern root h e literal)
      (sym (path_matches-directory pattern path root e) ∙ m)
