-- ===== src/Prelude/Dicts.antt =====
-- A dictionary with text keys, as an association list: `get`, `d[k] = v`, `del d[k]`.
use mathlib.Core.Path.{◌≡◌, refl}
use mathlib.Core.Option.{Option, none, some}
use mathlib.Core.List.{List, [], ◌∷◌}
use native.Mathlib.Omega.{arith}
use msos_autobuilder.Prelude.Tests.{Text, ◌==◌, ==_iff, ==_refl, if◌then◌else◌}

abbrev pub Dict {ℓ} : Type ℓ → Type ℓ
Dict V = List (Text × V)

module _ {ℓ} {V : Type ℓ} where
  unfoldable pub lookup : Text → Dict V → Option V
  lookup k [] = none
  lookup k ((j, v) ∷ d) = if j == k then some v else lookup k d

  unfoldable pub remove : Text → Dict V → Dict V
  remove k [] = []
  remove k ((j, v) ∷ d) = let rest = remove k d in if j == k then rest else (j, v) ∷ rest

  unfoldable pub insert : Text → V → Dict V → Dict V
  insert k v d = (k, v) ∷ remove k d

  pub lookup-remove :
      (k j : Text) (d : Dict V) → lookup j (remove k d) ≡ (if k == j then none else lookup j d)
  unfolding lookup remove
  lookup-remove k j [] = ground arith
  lookup-remove k j ((i, v) ∷ d) =
      ground (arith, lookup-remove k j d, ==_iff i k, ==_iff i j, ==_iff k j)

  pub lookup-insert :
      (k j : Text) (v : V) (d : Dict V)
      → lookup j (insert k v d) ≡ (if k == j then some v else lookup j d)
  unfolding lookup insert
  lookup-insert k j v d = simp lookup-remove (ground arith)

pub lookup-insert_same {ℓ} :
    {V : Type ℓ} (k : Text) (v : V) (d : Dict V) → lookup k (insert k v d) ≡ some v
lookup-insert_same k v d = rw (lookup-insert, ==_refl) refl

-- Removing a key that is not there changes nothing.
pub remove_absent {ℓ} : {V : Type ℓ} (k : Text) (d : Dict V) → lookup k d ≡ none → remove k d ≡ d
unfolding lookup remove
remove_absent k [] h = refl
remove_absent k ((j, v) ∷ d) h = ground (arith, remove_absent k d)

pub remove-insert {ℓ} :
    {V : Type ℓ} (k : Text) (v : V) (d : Dict V) → lookup k d ≡ none → remove k (insert k v d) ≡ d
unfolding insert remove
remove-insert k v d h = ground (arith, ==_refl k, remove_absent k (remove k d), remove_absent k d)

pub ruleset dict_laws = (lookup-remove, lookup-insert)
