-- ===== src/Text/Fnmatch.antt =====
-- `fnmatch.fnmatchcase` of Python's standard library: the pattern is read into tokens, and the
-- tokens are matched against the whole name.
pub mod Literal
use mathlib.Core.Option
use msos_autobuilder.Prelude.{
  ℕ, zero, suc, Bool, true, false, not, ◌&&◌, ◌||◌, Option, some, List, [], ◌∷◌, ◌++◌, Text, nat_eq,
  leb, length, any, if◌then◌else◌,
}

-- `class negated ranges` is `[...]`, each range with its two ends.
pub data Token : Type 0 where
  any_run any_one : Token
  class : Bool → List (ℕ × ℕ) → Token
  literal : ℕ → Token

split_at_close : Text → Option (Text × Text)
split_at_close [] = Option.none
split_at_close (c ∷ s) =
    if nat_eq c b']' then some ([], s) else Option.map (λ t. (c ∷ t.0, t.1)) (split_at_close s)

take_one : ℕ → Text → Text × Text
take_one c [] = ([], [])
take_one c (d ∷ s) = if nat_eq d c then (d ∷ [], s) else ([], d ∷ s)

-- What stands between `[` and its `]`, and what follows: a leading `!`, and then a leading `]`, do
-- not end the class.
bracket : Text → Option (Text × Text)
unfolding split_at_close take_one
bracket s =
    let (bang, s') = take_one b'!' s in
    let (close, s'') = take_one b']' s' in
    Option.map (λ t. (bang ++ close ++ t.0, t.1)) (split_at_close s'')

ranges : Text → List (ℕ × ℕ)
ranges [] = []
ranges (a ∷ []) = (a, a) ∷ []
ranges (a ∷ m ∷ []) = (a, a) ∷ (m, m) ∷ []
ranges (a ∷ m ∷ b ∷ s) =
    let spanned = (a, b) ∷ ranges s in
    let single = (a, a) ∷ ranges (m ∷ b ∷ s) in if nat_eq m b'-' then spanned else single

class_of : Text → Token
unfolding ranges
class_of [] = class false []
class_of (c ∷ s) = if nat_eq c b'!' then class true (ranges s) else class false (ranges (c ∷ s))

-- The fuel is a bound on the pattern's length, and each token uses up at least one character.
tokens : ℕ → Text → List Token
unfolding bracket class_of
tokens zero s = []
tokens (suc fuel) [] = []
tokens (suc fuel) (c ∷ s) =
    let next = tokens fuel s in
    if nat_eq c b'*'
    then any_run ∷ next
    else if nat_eq c b'?'
    then any_one ∷ next
    else if nat_eq c b'['
    then (elim (bracket s) [
      | Option.none ↦ literal c ∷ next
      | some (body, rest) ↦ class_of body ∷ tokens fuel rest
    ])
    else literal c ∷ next

in_range : ℕ → ℕ × ℕ → Bool
in_range c (lo, hi) = leb lo c && leb c hi

matches_one : Token → ℕ → Bool
unfolding any in_range
matches_one any_run c = true
matches_one any_one c = true
matches_one (class negated rs) c =
    if negated then not (any (in_range c) rs) else any (in_range c) rs
matches_one (literal d) c = nat_eq d c

matches : List Token → Text → Bool
unfolding matches_one
matches [] [] = true
matches [] (c ∷ s) = false
matches (any_run ∷ ts) [] = matches ts []
matches (any_run ∷ ts) (c ∷ s) =
    let stop = matches ts (c ∷ s) in let more = matches (any_run ∷ ts) s in stop || more
matches (t ∷ ts) [] = false
matches (t ∷ ts) (c ∷ s) = matches_one t c && matches ts s

unfoldable pub fnmatchcase : Text → Text → Bool
unfolding tokens matches
fnmatchcase name pattern = matches (tokens (length pattern) pattern) name

unfoldable pub is_wildcard : ℕ → Bool
is_wildcard c = nat_eq c b'*' || nat_eq c b'?' || nat_eq c b'['
