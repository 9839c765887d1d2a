-- ===== src/WorkAdmission/Candidates.antt =====
-- `classify_candidate` and `_canonical_candidate` of src/msos_autobuilder/work_admission.py.
use msos_autobuilder.Prelude.{
  ℕ, Bool, true, false, not, ◌&&◌, ◌||◌, Option, none, some, List, [], ◌∷◌, Text, ◌==◌, nat_eq, all,
  text_mem, if◌then◌else◌, Result, ok, ◌>>=◌,
}
use msos_autobuilder.WorkAdmission.Paths.{AdmissionError, normalize_paths, paths_overlap}

pub record ObjectiveIdentity : Type 0 where
  pub repository : Text
  pub linked_issue : Option ℕ
  pub work_item_id : Text
  pub stable_key : Text
  pub acceptance_contract_sha256 : Option Text
  pub error_signature : Option Text
  pub release_identity : Option Text

pub record WorkCandidate : Type 0 where
  pub kind : Text
  pub number : Option ℕ
  pub title : Text
  pub state : Text
  pub branch : Option Text
  pub linked_issue : Option ℕ
  pub objective_sha256 : Option Text
  pub acceptance_contract_sha256 : Option Text
  pub changed_paths : List Text
  pub canonical : Bool
  pub merged : Bool
  pub unique_required_change : Bool
  pub url : Option Text

-- The members that the code never assigns are there for the enumeration's sake.
pub data WorkClassification : Type 0 where
  continue review_and_merge repair superseded_duplicate : WorkClassification
  combine_with_reconciliation_plan founder_decision_required preserve_unique_work :
      WorkClassification

pub record AdmissionRequest : Type 0 where
  pub objective : ObjectiveIdentity
  pub writer_id : Text
  pub branch : Option Text
  pub authorized_paths : List Text
  pub pr_number : Option ℕ
  pub candidates : List WorkCandidate
  pub expected_claim_generation : Option ℕ

-- What a classification's mapping holds for the code that reads it.
pub record Classified : Type 0 where
  pub candidate_kind : Text
  pub candidate_number : Option ℕ
  pub candidate_branch : Option Text
  pub classification : WorkClassification
  pub same_issue : Bool
  pub same_objective : Bool
  pub same_acceptance_contract : Bool
  pub path_overlap : List Text

unfoldable pub opt_nat_eq : Option ℕ → Option ℕ → Bool
opt_nat_eq none none = true
opt_nat_eq none (some n) = false
opt_nat_eq (some m) none = false
opt_nat_eq (some m) (some n) = nat_eq m n

unfoldable pub opt_text_eq : Option Text → Option Text → Bool
opt_text_eq none none = true
opt_text_eq none (some t) = false
opt_text_eq (some s) none = false
opt_text_eq (some s) (some t) = s == t

-- `a is not None and b == a`
abbrev present_nat_eq : Option ℕ → Option ℕ → Bool
present_nat_eq none b = false
present_nat_eq (some m) b = opt_nat_eq b (some m)

abbrev present_text_eq : Option Text → Option Text → Bool
present_text_eq none b = false
present_text_eq (some m) b = opt_text_eq b (some m)

abbrev pub is_nil : List Text → Bool
is_nil [] = true
is_nil (x ∷ xs) = false

-- The ladder of `classify_candidate`.
unfoldable pub classification_of :
    (unique equivalent complete settled overlap : Bool) → WorkClassification
classification_of unique equivalent complete settled overlap =
    if unique
    then preserve_unique_work
    else if equivalent && complete && settled
    then continue
    else if equivalent && overlap
    then review_and_merge
    else if overlap && not equivalent
    then founder_decision_required
    else preserve_unique_work

module _ (objective_sha256 : ObjectiveIdentity → Text) where
  unfoldable pub classify_candidate :
      AdmissionRequest → WorkCandidate → Result AdmissionError Classified
  unfolding classification_of opt_nat_eq opt_text_eq all text_mem
  classify_candidate request candidate = do
    requested_paths ← normalize_paths request.authorized_paths
    candidate_paths ← normalize_paths candidate.changed_paths
    overlap ← paths_overlap requested_paths candidate_paths
    let same_issue = present_nat_eq request.objective.linked_issue candidate.linked_issue
    let same_objective =
        opt_text_eq candidate.objective_sha256 (some (objective_sha256 request.objective))
    let same_contract =
        present_text_eq request.objective.acceptance_contract_sha256
          candidate.acceptance_contract_sha256
    let complete = not (is_nil overlap) && all (λ p. text_mem p overlap) requested_paths
    ok (record {
      candidate_kind = candidate.kind;
      candidate_number = candidate.number;
      candidate_branch = candidate.branch;
      classification =
          classification_of candidate.unique_required_change
            (same_issue || same_objective || same_contract) complete
            (candidate.canonical || candidate.merged) (not (is_nil overlap));
      same_issue = same_issue;
      same_objective = same_objective;
      same_acceptance_contract = same_contract;
      path_overlap = overlap;
    })

  unfoldable pub classify_all :
      AdmissionRequest → List WorkCandidate → Result AdmissionError (List Classified)
  classify_all request [] = ok []
  classify_all request (candidate ∷ candidates) = do
    first ← classify_candidate request candidate
    rest ← classify_all request candidates
    ok (first ∷ rest)

unfoldable pub is_continue : WorkClassification → Bool
is_continue continue = true
is_continue _ = false

unfoldable pub is_founder_decision : WorkClassification → Bool
is_founder_decision founder_decision_required = true
is_founder_decision _ = false

unfoldable pub needs_resolution : WorkClassification → Bool
needs_resolution review_and_merge = true
needs_resolution founder_decision_required = true
needs_resolution _ = false

has_key : Classified → WorkCandidate → Bool
has_key c candidate =
    candidate.kind == c.candidate_kind
    && opt_nat_eq candidate.number c.candidate_number
    && opt_text_eq candidate.branch c.candidate_branch

-- `by_key.get(key)`: of candidates with one key the mapping holds the last.
unfoldable pub last_with_key : Classified → List WorkCandidate → Option WorkCandidate
unfolding has_key
last_with_key c [] = none
last_with_key c (candidate ∷ candidates) = elim (last_with_key c candidates) [
  | some later ↦ some later
  | none ↦ if has_key c candidate then some candidate else none
]

unfoldable pub canonical_candidate : List WorkCandidate → List Classified → Option WorkCandidate
unfolding is_continue last_with_key
canonical_candidate candidates [] = none
canonical_candidate candidates (c ∷ cs) =
    let rest = canonical_candidate candidates cs in
    if is_continue c.classification
    then (elim (last_with_key c candidates) [ some candidate ↦ some candidate | none ↦ rest ])
    else rest
