-- ===== src/WorkAdmission/Generations.antt =====
-- The generation of a writer claim of src/msos_autobuilder/work_admission.py as a fencing number: it
-- never decreases, and it grows when the objective changes hands.
use msos_autobuilder.Prelude.{
  ℕ, ◌≡◌, refl, sym, ◌∙◌, subst, ap, ◌≤◌, ◌<◌, ◌+◌, Bool, Option, some, List, [], ◌∷◌, Text, ◌==◌,
  ==_iff, keep, arith, lookup, lookup-insert, Result, ok, err, >>=-eq-ok, ◌⊎◌, inl, inr, Bool-cases,
}
use msos_autobuilder.WorkAdmission.Paths.{AdmissionError}
use msos_autobuilder.WorkAdmission.Candidates.{ObjectiveIdentity, AdmissionRequest, Classified}
use msos_autobuilder.WorkAdmission.Claims.{
  WriterClaim, readable, ClaimStore, load_claim, load_all_claims, write_claim, releasable_claim,
  apply_release, release_claim, is_active,
}
use msos_autobuilder.WorkAdmission.Admission.{
  grant, answer, decide_claim, locked_step, apply_step, admit_claim, admit_prepared, admit_work,
  prepare, ClaimStep, next_generation,
}
use msos_autobuilder.WorkAdmission.Exclusive.{decide_claim-grant, admit_prepared_lem}
use msos_autobuilder.WorkAdmission.Releases.{apply_release_claims}
use msos_autobuilder.WorkAdmission.Traces.{Operation, admit, release, operate, operate_all}

-- The later claim has no smaller generation, and a larger one if its writer is another.
abbrev pub Follows : WriterClaim → WriterClaim → Type 0
Follows old new =
    (old.generation ≤ new.generation)
    × ((old.writer_id ≡ new.writer_id) ⊎ (old.generation < new.generation))

-- What the store has of an objective now follows the claim `old`.
abbrev pub IsFollowed : Text → WriterClaim → ClaimStore → Type 0
IsFollowed sha old store =
    (new : WriterClaim) × (lookup sha store.claims ≡ some (readable new)) × Follows old new

Follows-refl : (a : WriterClaim) → Follows a a
Follows-refl a = (grind arith, inl refl)

Follows-trans : (a b c : WriterClaim) → Follows a b → Follows b c → Follows a c
Follows-trans a b c (ab, inl e) (bc, inl f) = (grind arith, inl (e ∙ f))
Follows-trans a b c (ab, inl e) (bc, inr f) = (grind arith, inr (grind arith))
Follows-trans a b c (ab, inr e) (bc, f) = (grind arith, inr (grind arith))

-- Writing a claim under one name keeps the others, and replaces its own.
IsFollowed-write :
    (sha key : Text) (old claim : WriterClaim) (store : ClaimStore)
    → lookup sha store.claims ≡ some (readable old)
    → (key ≡ sha → Follows old claim)
    → IsFollowed sha old (write_claim key claim store)
unfolding write_claim
IsFollowed-write sha key old claim store h k = elim (Bool-cases (key == sha)) [
  | inl same ↦ (
    claim,
    lookup-insert key sha (readable claim) store.claims ∙ ground arith,
    k ((==_iff key sha).0 same),
  )
  | inr other ↦
      (old, lookup-insert key sha (readable claim) store.claims ∙ ground arith, Follows-refl old)
]

load_claim-readable :
    (sha : Text) (old : WriterClaim) (found : Option WriterClaim) (store : ClaimStore)
    → lookup sha store.claims ≡ some (readable old)
    → load_claim sha store ≡ ok found
    → found ≡ some old
unfolding load_claim
load_claim-readable sha old found store h k = ground arith

releasable_claim-claim :
    (store : ClaimStore) (sha writer terminal : Text) (expected : Option ℕ) (claim : WriterClaim)
    → releasable_claim store sha writer terminal expected ≡ ok claim
    → load_claim sha store ≡ ok (some claim)
unfolding releasable_claim
releasable_claim-claim store sha writer terminal expected claim h = ground arith

apply_release-IsFollowed :
    (key writer terminal : Text) (expected : Option ℕ) (now : ℕ) (store : ClaimStore) (sha : Text)
    (old : WriterClaim) (r : Result AdmissionError WriterClaim)
    → releasable_claim store key writer terminal expected ≡ r
    → lookup sha store.claims ≡ some (readable old)
    → IsFollowed sha old (apply_release key terminal now r store).1
unfolding apply_release
apply_release-IsFollowed key writer terminal expected now store sha old (err e) h k =
    (old, k, Follows-refl old)
apply_release-IsFollowed key writer terminal expected now store sha old (ok claim) h k =
    let updated : WriterClaim = record claim { state = terminal; updated_at = now } in
    let (new, there, follows) = IsFollowed-write sha key old updated store k λ same.
      let loaded = releasable_claim-claim store key writer terminal expected claim h in
      let was =
        load_claim-readable key old (some claim) store
          (ap (λ name. lookup name store.claims) same ∙ k) loaded in
      let e : claim ≡ old = cc in
      let generations = ap (λ c. c.generation) e in
      (grind arith, inl (ap (λ c. c.writer_id) (sym e))) in
    (new, ap (lookup sha) (apply_release_claims key terminal now claim store) ∙ there, follows)

module _ (objective_sha256 : ObjectiveIdentity → Text) where
  locked_step-generation :
      (request : AdmissionRequest) (paths : List Text) (classified : List Classified) (now : ℕ)
      (store : ClaimStore) (claim old : WriterClaim) (active : List WriterClaim)
      → locked_step objective_sha256 request paths classified now store ≡ ok (grant claim, active)
      → lookup (objective_sha256 request.objective) store.claims ≡ some (readable old)
      → claim.generation ≡ old.generation + 1
  locked_step-generation request paths classified now store claim old active h k =
      let sha = objective_sha256 request.objective in
      let (existing, found, h1) = >>=-eq-ok (load_claim sha store) _ h in
      let (claims, read, h2) = >>=-eq-ok (load_all_claims store) _ h1 in
      let (step, decided, h3) =
        >>=-eq-ok
          (decide_claim objective_sha256 request paths classified now existing
            (keep is_active claims))
          _ h2 in
      let (is_new, free) =
        decide_claim-grant objective_sha256 request paths classified now existing
          (keep is_active claims) claim (decided ∙ cc) in
      let was = load_claim-readable sha old existing store k found in
      ap (λ c. c.generation) is_new ∙ ap next_generation was

  apply_step-IsFollowed :
      (request : AdmissionRequest) (paths : List Text) (classified : List Classified) (now : ℕ)
      (store : ClaimStore) (sha : Text) (old : WriterClaim)
      (r : Result AdmissionError (ClaimStep × List WriterClaim))
      → locked_step objective_sha256 request paths classified now store ≡ r
      → lookup sha store.claims ≡ some (readable old)
      → IsFollowed sha old
          (apply_step objective_sha256 (objective_sha256 request.objective) classified r store).1
  unfolding apply_step
  apply_step-IsFollowed request paths classified now store sha old (err e) h k =
      (old, k, Follows-refl old)
  apply_step-IsFollowed request paths classified now store sha old (ok (answer result, active)) h
        k =
      (old, k, Follows-refl old)
  apply_step-IsFollowed request paths classified now store sha old (ok (grant claim, active)) h k =
      IsFollowed-write sha (objective_sha256 request.objective) old claim store k λ same.
        let next =
          locked_step-generation request paths classified now store claim old active h
            (ap (λ key. lookup key store.claims) same ∙ k) in
        (grind arith, inr (grind arith))

  admit_prepared-IsFollowed :
      (configured : Bool) (request : AdmissionRequest) (now : ℕ) (store : ClaimStore) (sha : Text)
      (old : WriterClaim) (r : Result AdmissionError (List Text × List Classified))
      → lookup sha store.claims ≡ some (readable old)
      → IsFollowed sha old (admit_prepared objective_sha256 configured request now store r).1
  unfolding admit_prepared admit_claim
  admit_prepared-IsFollowed configured request now store sha old (err e) k =
      (old, k, Follows-refl old)
  admit_prepared-IsFollowed configured request now store sha old (ok (paths, classified)) k =
      elim (admit_prepared_lem objective_sha256 configured request now store paths classified) [
        | inl same ↦ subst (IsFollowed sha old) (sym same) (old, k, Follows-refl old)
        | inr claimed ↦
            subst (IsFollowed sha old) (sym claimed)
              (apply_step-IsFollowed request paths classified now store sha old _ refl k)
      ]

  operate-IsFollowed :
      (operation : Operation) (store : ClaimStore) (sha : Text) (old : WriterClaim)
      → lookup sha store.claims ≡ some (readable old)
      → IsFollowed sha old (operate objective_sha256 operation store)
  unfolding admit_work release_claim
  operate-IsFollowed (admit configured request now) store sha old k =
      admit_prepared-IsFollowed configured request now store sha old
        (prepare objective_sha256 request) k
  operate-IsFollowed (release key writer terminal expected now) store sha old k =
      apply_release-IsFollowed key writer terminal expected now store sha old _ refl k

  -- A claim is never lost: after any operations its objective still has a claim, of no smaller
  -- generation, and of a larger one if it is another writer's.
  pub operate_all-IsFollowed :
      (operations : List Operation) (store : ClaimStore) (sha : Text) (old : WriterClaim)
      → lookup sha store.claims ≡ some (readable old)
      → IsFollowed sha old (operate_all objective_sha256 operations store)
  operate_all-IsFollowed [] store sha old k = (old, k, Follows-refl old)
  operate_all-IsFollowed (operation ∷ operations) store sha old k =
      let (mid, there, first) = operate-IsFollowed operation store sha old k in
      let (new, last, rest) =
        operate_all-IsFollowed operations (operate objective_sha256 operation store) sha mid
          there in
      (new, last, Follows-trans old mid new first rest)
