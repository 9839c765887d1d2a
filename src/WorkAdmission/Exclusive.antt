-- ===== src/WorkAdmission/Exclusive.antt =====
-- No two active claims of different writers share an objective or a path, whatever is admitted and
-- released.
use msos_autobuilder.Prelude.{
  ℕ, ◌≡◌, refl, sym, ◌∙◌, subst, Bool, true, false, not, ◌&&◌, ◌||◌, Option, none, some, List, [],
  ◌∷◌, Text, ◌==◌, ◌⊎◌, all, keep, All, AllPairs, arith, Bool-cases, inl, inr, Dict, insert, remove,
  Result, ok, err, >>=-eq-ok,
}
use msos_autobuilder.WorkAdmission.Paths.{AdmissionError, paths_overlap}
use msos_autobuilder.WorkAdmission.Candidates.{
  ObjectiveIdentity, AdmissionRequest, Classified, is_nil,
}
use msos_autobuilder.WorkAdmission.Claims.{
  WriterClaim, ClaimFile, readable, malformed, ClaimStore, is_active, sort_by_name, insert_by_name,
  read_claims, load_all_claims, load_claim, write_claim, conflicting_active_claim,
}
use msos_autobuilder.WorkAdmission.Admission.{
  new_claim, grant, answer, decide_claim, admit_claim, admit_work, locked_step, apply_step,
  ClaimStep, admit_prepared, prepare,
}

-- `paths_overlap` returns the empty tuple.
abbrev no_overlap : Result AdmissionError (List Text) → Bool
no_overlap (ok overlap) = is_nil overlap
no_overlap (err e) = false

-- A claim that does not stand in the way of this writer, objective and paths.
abbrev pub admits : Text → Text → List Text → WriterClaim → Bool
admits sha writer paths claim =
    not (is_active claim)
    || claim.writer_id == writer
    || not (claim.objective_sha256 == sha)
      && no_overlap (paths_overlap claim.authorized_paths paths)

abbrev file_admits : Text → Text → List Text → ClaimFile → Bool
file_admits sha writer paths malformed = true
file_admits sha writer paths (readable claim) = admits sha writer paths claim

-- Of two claim files, the newer one first: one is not active, or they have one writer, or their
-- objectives differ and their paths do not overlap.
abbrev pub apart : ClaimFile → ClaimFile → Bool
apart malformed old = true
apart (readable new) old =
    not (is_active new) || file_admits new.objective_sha256 new.writer_id new.authorized_paths old

-- The claims of a store, the newest first.
abbrev pub IsExclusive : ClaimStore → Type 0
IsExclusive store = AllPairs (λ new old. apart new.1 old.1 ≡ true) store.claims

module _ (sha writer : Text) (paths : List Text) where
  conflict_free :
      (claims : List WriterClaim)
      → conflicting_active_claim (keep is_active claims) sha writer paths ≡ ok none
      → all (admits sha writer paths) claims ≡ true
  unfolding conflicting_active_claim all keep
  conflict_free [] h = refl
  conflict_free (claim ∷ claims) h = ground (arith, conflict_free claims)

  all-read_claims :
      (entries : Dict ClaimFile) (claims : List WriterClaim)
      → read_claims entries ≡ ok claims
      → all (admits sha writer paths) claims ≡ true
      → all (λ e. file_admits sha writer paths e.1) entries ≡ true
  unfolding read_claims all
  all-read_claims [] claims h k = refl
  all-read_claims ((name, malformed) ∷ entries) claims h k = ground arith
  all-read_claims ((name, readable claim) ∷ entries) claims h k =
      let (rest, read, e) = >>=-eq-ok (read_claims entries) _ h in
      ground (arith, all-read_claims entries rest read)

all-insert_by_name :
    (p : ClaimFile → Bool) (entry : Text × ClaimFile) (entries : Dict ClaimFile)
    → all (λ e. p e.1) (insert_by_name entry entries) ≡ (p entry.1 && all (λ e. p e.1) entries)
unfolding all insert_by_name
all-insert_by_name p (k, f) [] = refl
all-insert_by_name p (k, f) ((j, g) ∷ entries) = ground (arith, all-insert_by_name p (k, f) entries)

all-sort_by_name :
    (p : ClaimFile → Bool) (entries : Dict ClaimFile)
    → all (λ e. p e.1) (sort_by_name entries) ≡ all (λ e. p e.1) entries
unfolding all sort_by_name
all-sort_by_name p [] = refl
all-sort_by_name p ((k, f) ∷ entries) =
    ground (arith, all-sort_by_name p entries, all-insert_by_name p (k, f) (sort_by_name entries))

-- A relation of one entry to all others, and among all others, survives a removal.
All-remove :
    (p : ClaimFile → Bool) (sha : Text) (entries : Dict ClaimFile)
    → All (λ e. p e.1 ≡ true) entries
    → All (λ e. p e.1 ≡ true) (remove sha entries)
unfolding remove
All-remove p sha [] h = tt
All-remove p sha ((k, f) ∷ entries) (first, rest) = elim (Bool-cases (k == sha)) [
  | inl same ↦ rw same (All-remove p sha entries rest)
  | inr other ↦ rw other (first, All-remove p sha entries rest)
]

AllPairs-remove :
    (sha : Text) (entries : Dict ClaimFile)
    → AllPairs (λ new old. apart new.1 old.1 ≡ true) entries
    → AllPairs (λ new old. apart new.1 old.1 ≡ true) (remove sha entries)
unfolding remove
AllPairs-remove sha [] h = tt
AllPairs-remove sha ((k, f) ∷ entries) (first, rest) = elim (Bool-cases (k == sha)) [
  | inl same ↦ rw same (AllPairs-remove sha entries rest)
  | inr other ↦ rw other (All-remove (apart f) sha entries first, AllPairs-remove sha entries rest)
]

-- A claim that all files admit, or that is not active, can be written.
pub IsExclusive-write :
    (sha : Text) (claim : WriterClaim) (store : ClaimStore)
    → All (λ e. apart (readable claim) e.1 ≡ true) store.claims
    → IsExclusive store
    → IsExclusive (write_claim sha claim store)
unfolding write_claim insert
IsExclusive-write sha claim store admitted h = (
  All-remove (apart (readable claim)) sha store.claims admitted,
  AllPairs-remove sha store.claims h,
)

pub apart_of_inactive :
    (claim : WriterClaim) (entries : Dict ClaimFile)
    → is_active claim ≡ false
    → All (λ e. apart (readable claim) e.1 ≡ true) entries
apart_of_inactive claim [] h = tt
apart_of_inactive claim (e ∷ entries) h = (rw h, apart_of_inactive claim entries h)

apart_of_admits :
    (claim : WriterClaim) (entries : Dict ClaimFile)
    → all
        (λ e. file_admits claim.objective_sha256 claim.writer_id claim.authorized_paths e.1)
        entries
      ≡ true
    → All (λ e. apart (readable claim) e.1 ≡ true) entries
unfolding all
apart_of_admits claim [] h = tt
apart_of_admits claim (e ∷ entries) h = (ground arith, apart_of_admits claim entries (ground arith))

module _ (objective_sha256 : ObjectiveIdentity → Text) where
  pub decide_claim-grant :
      (request : AdmissionRequest) (paths : List Text) (classified : List Classified) (now : ℕ)
      (existing : Option WriterClaim) (active : List WriterClaim) (claim : WriterClaim)
      → decide_claim objective_sha256 request paths classified now existing active
        ≡ ok (grant claim)
      → (claim ≡ new_claim objective_sha256 request paths now existing)
        × (conflicting_active_claim active
              (objective_sha256 request.objective)
              request.writer_id
              paths
            ≡ ok none)
  unfolding decide_claim
  decide_claim-grant request paths classified now none active claim h = ground arith
  decide_claim-grant request paths classified now (some existing) active claim h = ground arith

  locked_step-grant :
      (request : AdmissionRequest) (paths : List Text) (classified : List Classified) (now : ℕ)
      (store : ClaimStore) (claim : WriterClaim) (active : List WriterClaim)
      → locked_step objective_sha256 request paths classified now store ≡ ok (grant claim, active)
      → All (λ e. apart (readable claim) e.1 ≡ true) store.claims
  unfolding load_all_claims
  locked_step-grant request paths classified now store claim active h =
      let sha = objective_sha256 request.objective in
      let (existing, found, h1) = >>=-eq-ok (load_claim sha store) _ h in
      let (claims, read, h2) = >>=-eq-ok (read_claims (sort_by_name store.claims)) _ h1 in
      let (step, decided, h3) =
        >>=-eq-ok
          (decide_claim objective_sha256 request paths classified now existing
            (keep is_active claims))
          _ h2 in
      let (is_new, free) =
        decide_claim-grant request paths classified now existing (keep is_active claims) claim
          (decided ∙ cc) in
      let admitted =
        all-read_claims sha request.writer_id paths (sort_by_name store.claims) claims read
          (conflict_free sha request.writer_id paths claims free) in
      rw is_new (
        apart_of_admits (new_claim objective_sha256 request paths now existing) store.claims (
          sym (all-sort_by_name (file_admits sha request.writer_id paths) store.claims) ∙ admitted))

  apply_step-IsExclusive :
      (request : AdmissionRequest) (paths : List Text) (classified : List Classified) (now : ℕ)
      (store : ClaimStore) (r : Result AdmissionError (ClaimStep × List WriterClaim))
      → locked_step objective_sha256 request paths classified now store ≡ r
      → IsExclusive store
      → IsExclusive
          (apply_step objective_sha256 (objective_sha256 request.objective) classified r store).1
  unfolding apply_step
  apply_step-IsExclusive request paths classified now store (err e) h k = k
  apply_step-IsExclusive request paths classified now store (ok (answer result, active)) h k = k
  apply_step-IsExclusive request paths classified now store (ok (grant claim, active)) h k =
      IsExclusive-write (objective_sha256 request.objective) claim store
        (locked_step-grant request paths classified now store claim active h) k

  pub admit_prepared_lem :
      (configured : Bool) (request : AdmissionRequest) (now : ℕ) (store : ClaimStore)
      (paths : List Text) (classified : List Classified)
      → ((admit_prepared objective_sha256 configured request now store (ok (paths, classified))).1
          ≡ store)
        ⊎ ((admit_prepared objective_sha256 configured request now store (ok (paths, classified))).1
            ≡ (admit_claim objective_sha256 request paths classified now store).1)
  unfolding admit_prepared
  admit_prepared_lem configured request now store paths classified = ground arith

  admit_prepared-IsExclusive :
      (configured : Bool) (request : AdmissionRequest) (now : ℕ) (store : ClaimStore)
      (r : Result AdmissionError (List Text × List Classified))
      → IsExclusive store
      → IsExclusive (admit_prepared objective_sha256 configured request now store r).1
  unfolding admit_prepared admit_claim
  admit_prepared-IsExclusive configured request now store (err e) h = h
  admit_prepared-IsExclusive configured request now store (ok (paths, classified)) h =
      elim (admit_prepared_lem configured request now store paths classified) [
        | inl same ↦ subst IsExclusive (sym same) h
        | inr claimed ↦
            subst IsExclusive (sym claimed)
              (apply_step-IsExclusive request paths classified now store _ refl h)
      ]

  -- Admission keeps the claims exclusive, whatever it answers and when it raises.
  pub admit_work-IsExclusive :
      (configured : Bool) (request : AdmissionRequest) (now : ℕ) (store : ClaimStore)
      → IsExclusive store
      → IsExclusive (admit_work objective_sha256 configured request now store).1
  unfolding admit_work
  admit_work-IsExclusive configured request now store h =
      admit_prepared-IsExclusive configured request now store (prepare objective_sha256 request) h
