-- ===== src/Host/Store/Sorting.antt =====
-- That sorting file names and globbing them keeps the names.
use msos_autobuilder.Prelude.{
  ◌≡◌, refl, true, some, List, [], ◌∷◌, Text, codes, Dict, lookup, ==_iff, text_mem, All, arith,
  Bool-cases, inl, inr,
}
use msos_autobuilder.Text.{text_lt, ends_with}
use msos_autobuilder.Host.Store.{insert_name, sort_names, yaml_names}

insert_name-mem :
    (n name : Text) (names : List Text)
    → text_mem n (insert_name name names) ≡ text_mem n (name ∷ names)
unfolding insert_name text_mem
insert_name-mem n name [] = refl
insert_name-mem n name (other ∷ others) = ground (arith, insert_name-mem n name others)

pub sort_names-mem :
    (n : Text) (names : List Text) → text_mem n (sort_names names) ≡ text_mem n names
unfolding sort_names text_mem
sort_names-mem n [] = refl
sort_names-mem n (name ∷ names) =
    ground (arith, sort_names-mem n names, insert_name-mem n name (sort_names names))

pub yaml_names-mem :
    (n : Text) (d : Dict Text) (text : Text)
    → lookup n d ≡ some text
    → ends_with (codes ".yaml") n ≡ true
    → text_mem n (yaml_names d) ≡ true
unfolding lookup text_mem
yaml_names-mem n [] text h e = ground arith
yaml_names-mem n ((name, file) ∷ d) text h e =
    ground (arith, yaml_names-mem n d text, ==_iff name n)

insert_name-All :
    (P : Text → Type 0) (name : Text) (names : List Text)
    → P name
    → All P names
    → All P (insert_name name names)
unfolding insert_name
insert_name-All P name [] h k = (h, tt)
insert_name-All P name (other ∷ others) h k = elim (Bool-cases (text_lt name other)) [
  | inl e ↦ rw e (h, k)
  | inr e ↦ rw e (k.0, insert_name-All P name others h k.1)
]

pub sort_names-All :
    (P : Text → Type 0) (names : List Text) → All P names → All P (sort_names names)
unfolding sort_names
sort_names-All P [] h = tt
sort_names-All P (name ∷ names) h =
    insert_name-All P name (sort_names names) h.0 (sort_names-All P names h.1)

pub yaml_names-All : (d : Dict Text) → All (λ n. ends_with (codes ".yaml") n ≡ true) (yaml_names d)
yaml_names-All [] = tt
yaml_names-All ((name, file) ∷ d) = elim (Bool-cases (ends_with (codes ".yaml") name)) [
  | inl e ↦ rw e (e, yaml_names-All d)
  | inr e ↦ rw e (yaml_names-All d)
]
