-- ===== src/WorkAdmission/Claims.antt =====
-- The durable writer claims of src/msos_autobuilder/work_admission.py: the files of the claims
-- directory, the active index, `release_claim` and `admit_work`. Each operation holds the file lock
-- from its first read to its last write, so it is one step here.
use msos_autobuilder.Prelude.{
  ℕ, Bool, false, not, Option, none, some, List, [], ◌∷◌, Text, codes, ◌==◌, nat_eq, keep, text_mem,
  Dict, lookup, insert, if◌then◌else◌, Result, ok, err, raise_if, ◌>>=◌, ◌>>◌,
}
use msos_autobuilder.Text.{text_lt}
use msos_autobuilder.WorkAdmission.Paths.{
  AdmissionError, malformed_claim, unsupported_terminal_state, missing_claim, not_current_writer,
  generation_mismatch, paths_overlap,
}
use msos_autobuilder.WorkAdmission.Candidates.{is_nil}

pub record WriterClaim : Type 0 where
  pub objective_sha256 : Text
  pub repository : Text
  pub linked_issue : Option ℕ
  pub writer_id : Text
  pub branch : Option Text
  pub pr_number : Option ℕ
  pub authorized_paths : List Text
  pub generation : ℕ
  pub state : Text
  pub claimed_at : ℕ
  pub updated_at : ℕ

-- What a claim file holds: a claim, or what `_load_claim` refuses.
pub data ClaimFile : Type 0 where
  readable : WriterClaim → ClaimFile
  malformed : ClaimFile

pub record ClaimStore : Type 0 where
  pub claims : Dict ClaimFile
  pub index : List WriterClaim

pub data ConflictReason : Type 0 where
  same_objective overlapping_paths : ConflictReason

unfoldable pub is_active : WriterClaim → Bool
is_active claim = claim.state == codes "active"

abbrev pub terminal_claim_states : List Text
terminal_claim_states =
    codes "merged" ∷ codes "superseded" ∷ codes "abandoned" ∷ codes "failed" ∷ codes "released" ∷ []

unfoldable pub load_claim : Text → ClaimStore → Result AdmissionError (Option WriterClaim)
load_claim sha store = elim (lookup sha store.claims) [
  | none ↦ ok none
  | some malformed ↦ err malformed_claim
  | some (readable claim) ↦ ok (some claim)
]

-- `sorted(claims_dir.glob("*.json"))`
unfoldable pub insert_by_name : Text × ClaimFile → Dict ClaimFile → Dict ClaimFile
insert_by_name (k, f) [] = (k, f) ∷ []
insert_by_name (k, f) ((j, g) ∷ entries) =
    let later = (j, g) ∷ insert_by_name (k, f) entries in
    if text_lt k j then (k, f) ∷ (j, g) ∷ entries else later

unfoldable pub sort_by_name : Dict ClaimFile → Dict ClaimFile
unfolding insert_by_name
sort_by_name [] = []
sort_by_name (entry ∷ entries) = insert_by_name entry (sort_by_name entries)

unfoldable pub read_claims : Dict ClaimFile → Result AdmissionError (List WriterClaim)
read_claims [] = ok []
read_claims ((k, malformed) ∷ entries) = err malformed_claim
read_claims ((k, readable claim) ∷ entries) = do rest ← read_claims entries; ok (claim ∷ rest)

unfoldable pub load_all_claims : ClaimStore → Result AdmissionError (List WriterClaim)
unfolding read_claims sort_by_name
load_all_claims store = read_claims (sort_by_name store.claims)

unfoldable pub write_claim : Text → WriterClaim → ClaimStore → ClaimStore
write_claim sha claim store = record store { claims = insert sha (readable claim) store.claims }

unfoldable pub write_active_index : List WriterClaim → ClaimStore → ClaimStore
write_active_index claims store = record store { index = keep is_active claims }

abbrev pub Conflict : Type 0
Conflict = Result AdmissionError (Option (WriterClaim × List Text × ConflictReason))

-- One claim of another writer: a conflict, or what the rest of the loop returns.
judge : Text → WriterClaim → List Text → Conflict → Conflict
judge sha claim overlap rest =
    if claim.objective_sha256 == sha
    then ok (some (claim, overlap, same_objective))
    else if not (is_nil overlap)
    then ok (some (claim, overlap, overlapping_paths))
    else rest

-- The first active claim of another writer that owns the objective or a path.
unfoldable pub conflicting_active_claim : List WriterClaim → Text → Text → List Text → Conflict
unfolding judge
conflicting_active_claim [] sha writer paths = ok none
conflicting_active_claim (claim ∷ claims) sha writer paths =
    let rest = conflicting_active_claim claims sha writer paths in
    if claim.writer_id == writer
    then rest
    else (paths_overlap claim.authorized_paths paths >>= λ overlap. judge sha claim overlap rest)

abbrev pub Outcome : Type 0 → Type 0
Outcome A = Result AdmissionError A × ClaimStore

-- `None`, or the generation that is there.
abbrev pub generation_differs : Option ℕ → ℕ → Bool
generation_differs none generation = false
generation_differs (some expected) generation = not (nat_eq generation expected)

unfoldable pub releasable_claim :
    ClaimStore → Text → Text → Text → Option ℕ → Result AdmissionError WriterClaim
releasable_claim store sha writer terminal expected = do
  raise_if (not (text_mem terminal terminal_claim_states)) unsupported_terminal_state
  found ← load_claim sha store
  (elim found [
    | none ↦ err missing_claim
    | some claim ↦ do
      raise_if (not (claim.writer_id == writer)) not_current_writer
      raise_if (generation_differs expected claim.generation) generation_mismatch
      ok claim
  ])

-- The claim is written before the other claims are read for the index: a malformed one among them
-- makes the call raise with the claim already terminal.
unfoldable pub apply_release :
    Text → Text → ℕ → Result AdmissionError WriterClaim → ClaimStore → Outcome WriterClaim
unfolding write_claim write_active_index load_all_claims
apply_release sha terminal now (err e) store = (err e, store)
apply_release sha terminal now (ok claim) store =
    let updated : WriterClaim = record claim { state = terminal; updated_at = now } in
    let written = write_claim sha updated store in
    elim (load_all_claims written) [
      | err e ↦ (err e, written)
      | ok claims ↦ (ok updated, write_active_index claims written)
    ]

unfoldable pub release_claim : Text → Text → Text → Option ℕ → ℕ → ClaimStore → Outcome WriterClaim
unfolding apply_release
release_claim sha writer terminal expected now store =
    apply_release sha terminal now (releasable_claim store sha writer terminal expected) store
