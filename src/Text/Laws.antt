-- ===== src/Text/Laws.antt =====
-- Laws of the text operations that the proofs share.
use msos_autobuilder.Prelude.{
  ℕ, ◌+◌, ◌-◌, ◌≡◌, refl, ap, Bool, true, [], ◌∷◌, ◌++◌, Text, length, all, arith, ◌==◌, ==_iff,
  Bool-cases, inl, inr,
}
use msos_autobuilder.Text.{starts_with, ends_with, take, drop_end, take_while}

pub starts_with-append : (p s : Text) → starts_with p (p ++ s) ≡ true
unfolding starts_with
starts_with-append [] s = refl
starts_with-append (c ∷ p) s = ground (arith, starts_with-append p s)

pub starts_with→append : (p s : Text) → starts_with p s ≡ true → (t : Text) × (s ≡ p ++ t)
unfolding starts_with
starts_with→append [] s h = (s, refl)
starts_with→append (c ∷ p) [] h = absurd (ground arith)
starts_with→append (c ∷ p) (d ∷ s) h =
    let (t, e) = starts_with→append p s (ground arith) in (t, ground arith)

length-append : (s t : Text) → length (s ++ t) ≡ length s + length t
length-append [] t = omega arith
length-append (c ∷ s) t = omega (arith, length-append s t)

take-append : (s t : Text) → take (length s) (s ++ t) ≡ s
take-append [] t = refl
take-append (c ∷ s) t = ap (λ r. c ∷ r) (take-append s t)

pub drop_end-append : (s t : Text) → drop_end (length t) (s ++ t) ≡ s
unfolding drop_end
drop_end-append s t =
    let e : length (s ++ t) - length t ≡ length s = omega (arith, length-append s t) in
    rw e (take-append s t)

pub ends_with→append : (p s : Text) → ends_with p s ≡ true → (t : Text) × (s ≡ t ++ p)
unfolding ends_with
ends_with→append p [] h = ([], (==_iff [] p).0 h)
ends_with→append p (c ∷ s) h = elim (Bool-cases ((c ∷ s) == p)) [
  | inl whole ↦ ([], (==_iff (c ∷ s) p).0 whole)
  | inr part ↦ let (t, e) = ends_with→append p s (ground arith) in (c ∷ t, ground arith)
]

pub take_while-all : (p : ℕ → Bool) (s : Text) → all p s ≡ true → take_while p s ≡ s
unfolding take_while all
take_while-all p [] h = refl
take_while-all p (c ∷ s) h = ground (arith, take_while-all p s)
