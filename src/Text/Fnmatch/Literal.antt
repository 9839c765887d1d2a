-- ===== src/Text/Fnmatch/Literal.antt =====
-- A pattern without wildcards matches itself alone.
use msos_autobuilder.Prelude.{
  ℕ, zero, suc, ◌≤◌, ◌≡◌, refl, Bool, true, not, [], ◌∷◌, map, Text, length, all, arith,
}
use msos_autobuilder.Text.Fnmatch.{literal, tokens, matches, fnmatchcase, is_wildcard}

abbrev pub is_literal : Text → Bool
is_literal = all (λ c. not (is_wildcard c))

tokens-literal :
    (fuel : ℕ) (s : Text) → length s ≤ fuel → is_literal s ≡ true → tokens fuel s ≡ map literal s
unfolding tokens all is_wildcard
tokens-literal zero [] b h = refl
tokens-literal zero (c ∷ s) b h = absurd (omega arith)
tokens-literal (suc fuel) [] b h = refl
tokens-literal (suc fuel) (c ∷ s) b h = ground (arith, tokens-literal fuel s)

matches-literal : (p s : Text) → matches (map literal p) s ≡ true → s ≡ p
unfolding matches
matches-literal [] [] h = refl
matches-literal [] (c ∷ s) h = ground arith
matches-literal (d ∷ p) [] h = ground arith
matches-literal (d ∷ p) (c ∷ s) h = ground (arith, matches-literal p s)

pub fnmatchcase-literal :
    (name pattern : Text)
    → is_literal pattern ≡ true
    → fnmatchcase name pattern ≡ true
    → name ≡ pattern
unfolding fnmatchcase
fnmatchcase-literal name pattern h m =
    matches-literal pattern name (rw (tokens-literal (length pattern) pattern (omega arith) h) at m)
