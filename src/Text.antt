-- ===== src/Text.antt =====
-- The methods of Python's `str` that the program calls, on texts as lists of code points.
pub mod Laws
pub mod Fnmatch
use msos_autobuilder.Prelude.{
  ℕ, zero, suc, ◌-◌, Bool, true, false, ◌&&◌, ◌||◌, List, [], ◌∷◌, ◌++◌, Text, codes, map, nat_eq,
  leb, ltb, ◌==◌, length, if◌then◌else◌,
}

-- The code points that `str.strip()` removes.
unfoldable pub is_space : ℕ → Bool
is_space c =
    leb 9 c && leb c 13
    || leb 28 c && leb c 32
    || nat_eq c 133
    || nat_eq c 160
    || nat_eq c 5760
    || leb 8192 c && leb c 8202
    || nat_eq c 8232
    || nat_eq c 8233
    || nat_eq c 8239
    || nat_eq c 8287
    || nat_eq c 12288

unfoldable pub is_slash : ℕ → Bool
is_slash c = nat_eq c b'/'

-- A character of `"./"`, the argument of an `lstrip`.
unfoldable pub is_dot_or_slash : ℕ → Bool
is_dot_or_slash c = nat_eq c b'.' || nat_eq c b'/'

abbrev pub is_empty : Text → Bool
is_empty [] = true
is_empty (c ∷ s) = false

unfoldable pub lstrip : (ℕ → Bool) → Text → Text
lstrip p [] = []
lstrip p (c ∷ s) = let rest = lstrip p s in if p c then rest else c ∷ s

unfoldable pub rstrip : (ℕ → Bool) → Text → Text
rstrip p [] = []
rstrip p (c ∷ s) = let rest = rstrip p s in if p c && is_empty rest then [] else c ∷ rest

unfoldable pub strip : (ℕ → Bool) → Text → Text
unfolding lstrip rstrip
strip p s = rstrip p (lstrip p s)

-- `text.replace("\\", "/")`
unfoldable pub forward_slashes : Text → Text
forward_slashes s = map (λ c. if nat_eq c 92 then b'/' else c) s

unfoldable pub starts_with : Text → Text → Bool
starts_with [] s = true
starts_with (c ∷ p) [] = false
starts_with (c ∷ p) (d ∷ s) = nat_eq c d && starts_with p s

unfoldable pub ends_with : Text → Text → Bool
ends_with p [] = [] == p
ends_with p (c ∷ s) = (c ∷ s) == p || ends_with p s

-- `p in text`
unfoldable pub contains : Text → Text → Bool
unfolding starts_with
contains p [] = starts_with p []
contains p (c ∷ s) = starts_with p (c ∷ s) || contains p s

abbrev pub take : ℕ → Text → Text
take zero s = []
take (suc n) [] = []
take (suc n) (c ∷ s) = c ∷ take n s

-- `text[:-n]` for a positive n
unfoldable pub drop_end : ℕ → Text → Text
drop_end n s = take (length s - n) s

unfoldable pub take_while : (ℕ → Bool) → Text → Text
take_while p [] = []
take_while p (c ∷ s) = let rest = take_while p s in if p c then c ∷ rest else []

-- An ASCII letter or digit, a dot, a dash or an underscore.
unfoldable pub is_id_char : ℕ → Bool
is_id_char c =
    leb b'A' c && leb c b'Z'
    || leb b'a' c && leb c b'z'
    || leb b'0' c && leb c b'9'
    || nat_eq c b'.'
    || nat_eq c b'_'
    || nat_eq c b'-'

-- Python's order of strings.
unfoldable pub text_lt : Text → Text → Bool
text_lt [] [] = false
text_lt [] (y ∷ ys) = true
text_lt (x ∷ xs) [] = false
text_lt (x ∷ xs) (y ∷ ys) = ltb x y || nat_eq x y && text_lt xs ys
