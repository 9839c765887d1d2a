-- ===== src/WorkAdmission/Tests.antt =====
-- Two writers at concrete objectives and paths of src/msos_autobuilder/work_admission.py.
use msos_autobuilder.Prelude.{
  ◌≡◌, ◌↔◌, refl, true, Option, none, some, List, [], ◌∷◌, Text, codes, ◌==◌, Result, ok, err,
  lookup, insert, remove, all, any, keep, text_mem,
}
use msos_autobuilder.Text.{
  forward_slashes, is_space, is_slash, strip, text_lt, starts_with, contains,
}
use msos_autobuilder.WorkAdmission.Paths.{
  AdmissionError, generation_mismatch, normalize_paths, paths_overlap, is_unsafe, clean_path,
}
use msos_autobuilder.WorkAdmission.Paths.Overlap.{paths_overlap_lem, AreDisjoint}
use msos_autobuilder.WorkAdmission.Candidates.{ObjectiveIdentity, AdmissionRequest, classify_all}
use msos_autobuilder.WorkAdmission.Claims.{
  WriterClaim, readable, ClaimStore, load_claim, load_all_claims, release_claim, releasable_claim,
  conflicting_active_claim, is_active,
}
use msos_autobuilder.WorkAdmission.Admission.{
  prepare, blocked_by_ownership_conflict, new_work_admitted, decide_claim, admit_claim, admit_work,
  AdmissionStatus, AdmissionDecision,
}
use msos_autobuilder.WorkAdmission.Exclusive.{IsExclusive}
use msos_autobuilder.WorkAdmission.Traces.{
  Operation, admit, release, operate_all, operate_all-IsExclusive,
}
use msos_autobuilder.WorkAdmission.Generations.{IsFollowed, operate_all-IsFollowed}

abbrev digest : ObjectiveIdentity → Text
digest objective = objective.stable_key

abbrev objective : Text → ObjectiveIdentity
objective key = record {
  repository = codes "o/r";
  linked_issue = none;
  work_item_id = key;
  stable_key = key;
  acceptance_contract_sha256 = none;
  error_signature = none;
  release_identity = none;
}

abbrev request : Text → Text → Text → AdmissionRequest
request key writer path = record {
  objective = objective key;
  writer_id = writer;
  branch = none;
  authorized_paths = path ∷ [];
  pr_number = none;
  candidates = [];
  expected_claim_generation = none;
}

abbrev empty : ClaimStore
empty = record { claims = []; index = [] }

abbrev docs : Text
docs = codes "docs"

abbrev guide : Text
guide = codes "docs/guide.md"

-- Ada takes the docs, Bob wants a page of them for another objective and is blocked until she
-- releases them.
abbrev handover : List Operation
handover =
    admit true (request (codes "k1") (codes "ada") docs) 1
    ∷ admit true (request (codes "k2") (codes "bob") guide) 2
    ∷ release (codes "k1") (codes "ada") (codes "merged") (some 1) 3
    ∷ admit true (request (codes "k2") (codes "bob") guide) 4
    ∷ []

program : Unit {0}
unfolding prepare forward_slashes classify_all releasable_claim admit_work admit_claim decide_claim
    conflicting_active_claim load_claim load_all_claims release_claim is_active paths_overlap
    normalize_paths is_unsafe clean_path strip is_space is_slash text_lt starts_with contains lookup
    insert remove all any keep text_mem ◌==◌
program = tt

abbrev status_of : Result AdmissionError AdmissionDecision → Option AdmissionStatus
status_of (ok d) = some d.status
status_of (err e) = none

abbrev after_ada : ClaimStore
after_ada = operate_all digest (admit true (request (codes "k1") (codes "ada") docs) 1 ∷ []) empty

bob_is_blocked :
    status_of (admit_work digest true (request (codes "k2") (codes "bob") guide) 2 after_ada).0
    ≡ some blocked_by_ownership_conflict
unfolding program
bob_is_blocked = refl

bob_is_admitted :
    status_of
      (admit_work digest true
        (request (codes "k2") (codes "bob") guide)
        4
        (release_claim (codes "k1") (codes "ada") (codes "merged") (some 1) 3 after_ada).1).0
    ≡ some new_work_admitted
unfolding program
bob_is_admitted = refl

stale_release :
    (release_claim (codes "k1") (codes "ada") (codes "merged") (some 2) 3 after_ada).0
    ≡ err generation_mismatch
unfolding program
stale_release = refl

operate_all-IsExclusive_example : IsExclusive (operate_all digest handover empty)
operate_all-IsExclusive_example = operate_all-IsExclusive digest handover empty tt

abbrev old_claim : WriterClaim
old_claim = record {
  objective_sha256 = codes "k1";
  repository = codes "o/r";
  linked_issue = none;
  writer_id = codes "eve";
  branch = none;
  pr_number = none;
  authorized_paths = docs ∷ [];
  generation = 3;
  state = codes "failed";
  claimed_at = 0;
  updated_at = 0;
}

abbrev old_store : ClaimStore
old_store = record { claims = (codes "k1", readable old_claim) ∷ []; index = [] }

old_claim_there : lookup (codes "k1") old_store.claims ≡ some (readable old_claim)
unfolding program
old_claim_there = refl

operate_all-IsFollowed_example :
    IsFollowed (codes "k1") old_claim (operate_all digest handover old_store)
operate_all-IsFollowed_example =
    operate_all-IsFollowed digest handover old_store (codes "k1") old_claim old_claim_there

docs_normal : normalize_paths (docs ∷ []) ≡ ok (docs ∷ [])
unfolding program
docs_normal = refl

guide_normal : normalize_paths (guide ∷ []) ≡ ok (guide ∷ [])
unfolding program
guide_normal = refl

guide_overlaps : paths_overlap (docs ∷ []) (guide ∷ []) ≡ ok (guide ∷ [])
unfolding program
guide_overlaps = refl

paths_overlap_lem_example : (guide ∷ []) ≡ [] ↔ AreDisjoint (docs ∷ []) (guide ∷ [])
paths_overlap_lem_example =
    paths_overlap_lem (docs ∷ []) (guide ∷ []) (docs ∷ []) (guide ∷ []) (guide ∷ []) docs_normal
      guide_normal guide_overlaps
