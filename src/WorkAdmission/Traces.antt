-- ===== src/WorkAdmission/Traces.antt =====
-- Sequences of `admit_work` and `release_claim` of src/msos_autobuilder/work_admission.py on one
-- claims directory. The file lock makes each of them one step.
use msos_autobuilder.Prelude.{ℕ, Bool, Option, List, [], ◌∷◌, Text}
use msos_autobuilder.WorkAdmission.Candidates.{ObjectiveIdentity, AdmissionRequest}
use msos_autobuilder.WorkAdmission.Claims.{ClaimStore, release_claim}
use msos_autobuilder.WorkAdmission.Admission.{admit_work}
use msos_autobuilder.WorkAdmission.Exclusive.{IsExclusive, admit_work-IsExclusive}
use msos_autobuilder.WorkAdmission.Releases.{release_claim-IsExclusive}

pub data Operation : Type 0 where
  admit : (configured : Bool) (request : AdmissionRequest) (now : ℕ) → Operation
  release : (sha writer terminal : Text) (expected : Option ℕ) (now : ℕ) → Operation

module _ (objective_sha256 : ObjectiveIdentity → Text) where
  -- The claims that are there after a call, answered or raised.
  abbrev pub operate : Operation → ClaimStore → ClaimStore
  operate (admit configured request now) store =
      (admit_work objective_sha256 configured request now store).1
  operate (release sha writer terminal expected now) store =
      (release_claim sha writer terminal expected now store).1

  abbrev pub operate_all : List Operation → ClaimStore → ClaimStore
  operate_all [] store = store
  operate_all (operation ∷ operations) store = operate_all operations (operate operation store)

  operate-IsExclusive :
      (operation : Operation) (store : ClaimStore)
      → IsExclusive store
      → IsExclusive (operate operation store)
  operate-IsExclusive (admit configured request now) store h =
      admit_work-IsExclusive objective_sha256 configured request now store h
  operate-IsExclusive (release sha writer terminal expected now) store h =
      release_claim-IsExclusive sha writer terminal expected now store h

  -- If it holds of the claims at the start, then whatever is admitted and released: of two active
  -- claims of different writers the objectives differ, and no authorized path of the newer one
  -- overlaps a path of the older one.
  pub operate_all-IsExclusive :
      (operations : List Operation) (store : ClaimStore)
      → IsExclusive store
      → IsExclusive (operate_all operations store)
  operate_all-IsExclusive [] store h = h
  operate_all-IsExclusive (operation ∷ operations) store h =
      operate_all-IsExclusive operations (operate operation store)
        (operate-IsExclusive operation store h)
