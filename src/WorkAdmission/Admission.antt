-- ===== src/WorkAdmission/Admission.antt =====
-- `admit_work` of src/msos_autobuilder/work_admission.py.
use msos_autobuilder.Prelude.{
  ℕ, ◌+◌, Bool, not, Option, none, some, List, [], ◌∷◌, ◌++◌, Text, codes, ◌==◌, keep, any,
  if◌then◌else◌, Result, ok, err, raise_if, ◌>>=◌, ◌>>◌,
}
use msos_autobuilder.WorkAdmission.Paths.{
  AdmissionError, active_generation_mismatch, normalize_paths, paths_overlap,
}
use msos_autobuilder.WorkAdmission.Candidates.{
  ObjectiveIdentity, WorkCandidate, AdmissionRequest, Classified, classify_all, needs_resolution,
  is_founder_decision, canonical_candidate,
}
use msos_autobuilder.WorkAdmission.Claims.{
  WriterClaim, ClaimStore, ConflictReason, same_objective, is_active, load_claim, load_all_claims,
  write_claim, write_active_index, conflicting_active_claim, Outcome, generation_differs,
}

pub data AdmissionStatus : Type 0 where
  continue_existing_work review_existing_work new_work_admitted : AdmissionStatus
  founder_reconciliation_required blocked_by_ownership_conflict : AdmissionStatus

pub record AdmissionDecision : Type 0 where
  pub status : AdmissionStatus
  pub canonical : Option WorkCandidate
  pub claim : Option WriterClaim
  pub classifications : List Classified
  pub conflict : Option (List Text × ConflictReason)

abbrev pub decision :
    AdmissionStatus
    → Option WorkCandidate
    → Option WriterClaim
    → List Classified
    → AdmissionDecision
decision status canonical claim classified = record {
  status = status;
  canonical = canonical;
  claim = claim;
  classifications = classified;
  conflict = none;
}

abbrev pub blocked : WriterClaim → List Classified → List Text → ConflictReason → AdmissionDecision
blocked claim classified overlap reason = record {
  status = blocked_by_ownership_conflict;
  canonical = none;
  claim = some claim;
  classifications = classified;
  conflict = some (overlap, reason);
}

-- What the locked part of `admit_work` comes to: an answer, or a claim to write.
pub data ClaimStep : Type 0 where
  answer : AdmissionDecision → ClaimStep
  grant : WriterClaim → ClaimStep

abbrev pub next_generation : Option WriterClaim → ℕ
next_generation none = 1
next_generation (some claim) = claim.generation + 1

module _ (objective_sha256 : ObjectiveIdentity → Text) where
  abbrev pub new_claim : AdmissionRequest → List Text → ℕ → Option WriterClaim → WriterClaim
  new_claim request paths now existing = record {
    objective_sha256 = objective_sha256 request.objective;
    repository = request.objective.repository;
    linked_issue = request.objective.linked_issue;
    writer_id = request.writer_id;
    branch = request.branch;
    pr_number = request.pr_number;
    authorized_paths = paths;
    generation = next_generation existing;
    state = codes "active";
    claimed_at = now;
    updated_at = now;
  }

  abbrev pub claim_unless_conflict :
      AdmissionRequest
      → List Text
      → List Classified
      → ℕ
      → Option WriterClaim
      → List WriterClaim
      → Result AdmissionError ClaimStep
  claim_unless_conflict request paths classified now existing active = do
    conflict ←
        conflicting_active_claim active (objective_sha256 request.objective) request.writer_id paths
    (elim conflict [
      | some (claim, overlap, reason) ↦ ok (answer (blocked claim classified overlap reason))
      | none ↦ ok (grant (new_claim request paths now existing))
    ])

  unfoldable pub decide_claim :
      AdmissionRequest
      → List Text
      → List Classified
      → ℕ
      → Option WriterClaim
      → List WriterClaim
      → Result AdmissionError ClaimStep
  decide_claim request paths classified now none active =
      claim_unless_conflict request paths classified now none active
  decide_claim request paths classified now (some existing) active =
      if is_active existing
      then (if not (existing.writer_id == request.writer_id)
          then (do
            overlap ← paths_overlap existing.authorized_paths paths
            ok (answer (blocked existing classified overlap same_objective)))
          else (do
            raise_if (generation_differs request.expected_claim_generation existing.generation)
                active_generation_mismatch
            ok (answer (decision new_work_admitted none (some existing) classified))))
      else claim_unless_conflict request paths classified now (some existing) active

  abbrev pub locked_step :
      AdmissionRequest
      → List Text
      → List Classified
      → ℕ
      → ClaimStore
      → Result AdmissionError (ClaimStep × List WriterClaim)
  locked_step request paths classified now store = do
    existing ← load_claim (objective_sha256 request.objective) store
    claims ← load_all_claims store
    let active = keep is_active claims
    step ← decide_claim request paths classified now existing active
    ok (step, active)

  unfoldable pub apply_step :
      Text
      → List Classified
      → Result AdmissionError (ClaimStep × List WriterClaim)
      → ClaimStore
      → Outcome AdmissionDecision
  unfolding write_claim write_active_index
  apply_step sha classified (err e) store = (err e, store)
  apply_step sha classified (ok (answer result, active)) store = (ok result, store)
  apply_step sha classified (ok (grant claim, active)) store = (
    ok (decision new_work_admitted none (some claim) classified),
    write_active_index (active ++ claim ∷ []) (write_claim sha claim store),
  )

  unfoldable pub admit_claim :
      AdmissionRequest → List Text → List Classified → ℕ → ClaimStore → Outcome AdmissionDecision
  unfolding apply_step
  admit_claim request paths classified now store =
      apply_step (objective_sha256 request.objective) classified
        (locked_step request paths classified now store) store

  unfoldable pub prepare : AdmissionRequest → Result AdmissionError (List Text × List Classified)
  prepare request = do
    paths ← normalize_paths request.authorized_paths
    classified ← classify_all objective_sha256 request request.candidates
    ok (paths, classified)

  abbrev settled :
      AdmissionStatus
      → Option WorkCandidate
      → List Classified
      → ClaimStore
      → Outcome AdmissionDecision
  settled status canonical classified store =
      (ok (decision status canonical none classified), store)

  -- After the classification. `configured` is `claim_root is not None`.
  unfoldable pub admit_prepared :
      Bool
      → AdmissionRequest
      → ℕ
      → ClaimStore
      → Result AdmissionError (List Text × List Classified)
      → Outcome AdmissionDecision
  unfolding canonical_candidate
  admit_prepared configured request now store (err e) = (err e, store)
  admit_prepared configured request now store (ok (paths, classified)) =
      let unresolved = keep (λ c. needs_resolution c.classification) classified in
      elim (canonical_candidate request.candidates classified) [
        | some canonical ↦ settled continue_existing_work (some canonical) classified store
        | none ↦
            if any (λ c. needs_resolution c.classification) classified
            then (if any (λ c. is_founder_decision c.classification) unresolved
                then settled founder_reconciliation_required none classified store
                else settled review_existing_work none classified store)
            else if not configured
            then settled new_work_admitted none classified store
            else admit_claim request paths classified now store
      ]

  unfoldable pub admit_work : Bool → AdmissionRequest → ℕ → ClaimStore → Outcome AdmissionDecision
  unfolding admit_prepared
  admit_work configured request now store =
      admit_prepared configured request now store (prepare request)
