-- ===== src/WorkAdmission/Releases.antt =====
-- That `release_claim` of src/msos_autobuilder/work_admission.py keeps the claims exclusive.
use msos_autobuilder.Prelude.{
  ℕ, ◌≡◌, refl, subst, true, false, Option, Text, codes, ◌==◌, ==_iff, text_mem, arith, Bool-cases,
  inl, inr, Result, ok, err,
}
use msos_autobuilder.WorkAdmission.Paths.{AdmissionError}
use msos_autobuilder.WorkAdmission.Claims.{
  WriterClaim, ClaimStore, is_active, write_claim, release_claim, releasable_claim, apply_release,
  terminal_claim_states,
}
use msos_autobuilder.WorkAdmission.Exclusive.{IsExclusive, IsExclusive-write, apart_of_inactive}

terminal_is_inactive :
    (terminal : Text)
    → text_mem terminal terminal_claim_states ≡ true
    → (terminal == codes "active") ≡ false
unfolding text_mem ◌==◌
terminal_is_inactive terminal h = elim (Bool-cases (terminal == codes "active")) [
  | inr other ↦ other
  | inl same ↦
      let e = (==_iff terminal (codes "active")).0 same in
      let h' : text_mem (codes "active") terminal_claim_states ≡ true =
        subst (λ t. text_mem t terminal_claim_states ≡ true) e h in
      cc
]

pub releasable_claim-terminal :
    (store : ClaimStore) (sha writer terminal : Text) (expected : Option ℕ) (claim : WriterClaim)
    → releasable_claim store sha writer terminal expected ≡ ok claim
    → text_mem terminal terminal_claim_states ≡ true
unfolding releasable_claim
releasable_claim-terminal store sha writer terminal expected claim h =
    elim (Bool-cases (text_mem terminal terminal_claim_states)) [
      | inl terminal_one ↦ terminal_one
      | inr other ↦ ground arith
    ]

pub apply_release_claims :
    (sha terminal : Text) (now : ℕ) (claim : WriterClaim) (store : ClaimStore)
    → (apply_release sha terminal now (ok claim) store).1.claims
      ≡ (write_claim sha (record claim { state = terminal; updated_at = now }) store).claims
unfolding apply_release
apply_release_claims sha terminal now claim store = ground arith

apply_release-IsExclusive :
    (sha writer terminal : Text) (expected : Option ℕ) (now : ℕ) (store : ClaimStore)
    (r : Result AdmissionError WriterClaim)
    → releasable_claim store sha writer terminal expected ≡ r
    → IsExclusive store
    → IsExclusive (apply_release sha terminal now r store).1
unfolding apply_release is_active ◌==◌
apply_release-IsExclusive sha writer terminal expected now store (err e) h k = k
apply_release-IsExclusive sha writer terminal expected now store (ok claim) h k =
    let updated : WriterClaim = record claim { state = terminal; updated_at = now } in
    rw (apply_release_claims sha terminal now claim store) (
      IsExclusive-write sha updated store
        (apart_of_inactive updated store.claims (
          terminal_is_inactive terminal
            (releasable_claim-terminal store sha writer terminal expected claim h)))
        k)

-- Releasing keeps the claims exclusive, also when it raises after the claim is written.
pub release_claim-IsExclusive :
    (sha writer terminal : Text) (expected : Option ℕ) (now : ℕ) (store : ClaimStore)
    → IsExclusive store
    → IsExclusive (release_claim sha writer terminal expected now store).1
unfolding release_claim
release_claim-IsExclusive sha writer terminal expected now store h =
    apply_release-IsExclusive sha writer terminal expected now store _ refl h
