-- ===== src/Host/Stands.antt =====
-- Where the text of a job stands in the store of src/msos_autobuilder/persistent_host.py.
pub mod Operations
pub mod Publishing
pub mod Archiving
pub mod Importing
use msos_autobuilder.Prelude.{
  ◌≡◌, ◌∙◌, ap, subst, true, false, Bool-cases, ==_iff, ==_refl, ◌==◌, none, some, Text, Dict,
  lookup, insert, remove, lookup-insert, lookup-remove, lookup-insert_same, ◌⊎◌, inl, inr, arith,
  if◌then◌else◌,
}
use msos_autobuilder.Host.Store.{Archive, HostStore}

-- Some entry of a dictionary satisfies a predicate.
abbrev pub Occurs {ℓ κ} : {V : Type ℓ} → (V → Type κ) → Dict V → Type (ℓ ⊔ κ)
Occurs {V = V} p d = (name : Text) × (v : V) × (lookup name d ≡ some v) × p v

module _ {ℓ κ} {V : Type ℓ} (p : V → Type κ) where
  pub Occurs-insert : (name : Text) (v : V) (d : Dict V) → p v → Occurs p (insert name v d)
  Occurs-insert name v d h = (name, v, lookup-insert_same name v d, h)

  pub Occurs-insert_other :
      (name : Text) (v : V) (d : Dict V)
      → lookup name d ≡ none
      → Occurs p d
      → Occurs p (insert name v d)
  Occurs-insert_other name v d absent (n, w, there, h) = elim (Bool-cases (name == n)) [
    | inl same ↦ let e = (==_iff name n).0 same in absurd cc
    | inr other ↦ (n, w, rw (lookup-insert, other) there, h)
  ]

  -- The entry is changed in a way that keeps the predicate.
  pub Occurs-update :
      (name : Text) (v w : V) (d : Dict V)
      → lookup name d ≡ some v
      → (p v → p w)
      → Occurs p d
      → Occurs p (insert name w d)
  Occurs-update name v w d found keep (n, u, there, h) = elim (Bool-cases (name == n)) [
    | inl same ↦
        Occurs-insert name w d
          (keep (let e = (==_iff name n).0 same in let q : u ≡ v = cc in subst p q h))
    | inr other ↦ (n, u, rw (lookup-insert, other) there, h)
  ]

  pub Occurs-remove :
      (name : Text) (v : V) (d : Dict V)
      → lookup name d ≡ some v
      → Occurs p d
      → p v ⊎ Occurs p (remove name d)
  Occurs-remove name v d found (n, u, there, h) = elim (Bool-cases (name == n)) [
    | inl same ↦ inl (let e = (==_iff name n).0 same in let q : u ≡ v = cc in subst p q h)
    | inr other ↦ inr (n, u, rw (lookup-remove, other) there, h)
  ]

-- A text is the content of a job file in the queue, or of `job.yaml` in an archive.
pub data Stands (t : Text) (pending running : Dict Text) (staging completed failed : Dict Archive)
    : Type 0 where
  waits : Occurs (λ text. text ≡ t) pending → Stands t pending running staging completed failed
  runs : Occurs (λ text. text ≡ t) running → Stands t pending running staging completed failed
  is_staged :
      Occurs (λ archive. archive.job ≡ some t) staging
      → Stands t pending running staging completed failed
  is_completed :
      Occurs (λ archive. archive.job ≡ some t) completed
      → Stands t pending running staging completed failed
  is_failed :
      Occurs (λ archive. archive.job ≡ some t) failed
      → Stands t pending running staging completed failed

abbrev pub InStore : {M : Type 0} → Text → HostStore M → Type 0
InStore t s = Stands t s.pending s.running s.staging s.completed s.failed

-- A change of the staged, or of the failed archives.
module _ (t : Text) (pending running : Dict Text) (staging completed failed : Dict Archive)
    (changed : Dict Archive) where
  pub Stands-staging :
      (Occurs (λ a. a.job ≡ some t) staging → Occurs (λ a. a.job ≡ some t) changed)
      → Stands t pending running staging completed failed
      → Stands t pending running changed completed failed
  Stands-staging move (waits h) = waits h
  Stands-staging move (runs h) = runs h
  Stands-staging move (is_staged h) = is_staged (move h)
  Stands-staging move (is_completed h) = is_completed h
  Stands-staging move (is_failed h) = is_failed h

  pub Stands-failed :
      (Occurs (λ a. a.job ≡ some t) failed → Occurs (λ a. a.job ≡ some t) changed)
      → Stands t pending running staging completed failed
      → Stands t pending running staging completed changed
  Stands-failed move (waits h) = waits h
  Stands-failed move (runs h) = runs h
  Stands-failed move (is_staged h) = is_staged h
  Stands-failed move (is_completed h) = is_completed h
  Stands-failed move (is_failed h) = is_failed (move h)
