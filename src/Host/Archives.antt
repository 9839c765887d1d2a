-- ===== src/Host/Archives.antt =====
-- The archives of src/msos_autobuilder/persistent_host.py: `_archive_failure` with the release of the
-- job's writer claim, `_archive_success`, and `_recover_interrupted_jobs`.
use msos_autobuilder.Prelude.{
  ℕ, true, Option, none, some, List, [], ◌∷◌, ◌++◌, Text, codes, lookup, if◌then◌else◌, Result, ok,
  err,
}
use msos_autobuilder.Text.{is_empty}
use msos_autobuilder.Json.{Json, integer, string, object, get}
use msos_autobuilder.WorkAdmission.Claims.{ClaimStore, release_claim}
use msos_autobuilder.Host.Jobs.{HostJob, archive_exists, safe_id}
use msos_autobuilder.Host.Store.{
  HostStore, Action, return, pure_call, refuse_if, ◌>>=◌, ◌>>◌, with_store, operation, sort_names,
  file_names, yaml_names, stem,
}
use msos_autobuilder.Host.Files.{
  file_operation, token_hex, make_staging, move_job, copy_job, write_outcome, unlink_running,
  publish_failed, publish_completed, annotate_failed,
}
use msos_autobuilder.Host.Feed.{in_dict}
use msos_autobuilder.Host.Tools.{HostTools, call}

-- `(objective_sha256, writer_id, generation)` of the claim that a job file names.
abbrev pub ClaimFields : Type 0
ClaimFields = Text × Text × ℕ

fields_of : (objective_sha256 writer_id generation : Json) → Option ClaimFields
fields_of (string objective_sha256) (string writer_id) (integer generation) =
    if is_empty objective_sha256
    then none
    else if is_empty writer_id
    then none
    else some (objective_sha256, writer_id, generation)
fields_of _ _ _ = none

claim_fields_in : Json → Option ClaimFields
unfolding get fields_of
claim_fields_in (object raw) = elim (get (codes "founder_build_next") raw) [
  | object build_next ↦ elim (get (codes "work_admission") build_next) [
    | object admission ↦
        fields_of (get (codes "objective_sha256") admission)
          (get (codes "claim_writer_id") admission) (get (codes "claim_generation") admission)
    | _ ↦ none
  ]
  | _ ↦ none
]
claim_fields_in _ = none

module _ {M : Type 0} (tools : HostTools M) where
  unfoldable pub claim_release_fields : Option Text → Option ClaimFields
  unfolding claim_fields_in
  claim_release_fields none = none
  claim_release_fields (some text) = elim (tools.codec.safe_load text) [
    | none ↦ none
    | some value ↦ claim_fields_in value
  ]

  -- The claim that an archived job names is released as failed, where it is still that claim.
  abbrev released : Option ClaimFields → HostStore M → Result (Unit {0}) (Unit {0}) × ClaimStore
  released none store = (ok tt, store.claims)
  released (some (objective, writer, generation)) store =
      let r =
        release_claim objective writer (codes "failed") (some generation) (tools.now store.machine)
          store.claims in
      (elim r.0 [ ok claim ↦ ok tt | err refused ↦ err tt ], r.1)

  abbrev archived_job : Text → HostStore M → Option Text
  archived_job archive store = elim (lookup archive store.failed) [ none ↦ none | some a ↦ a.job ]

  unfoldable pub release_archived_claim : Text → Action M (Result (Unit {0}) (Unit {0}))
  unfolding claim_release_fields
  release_archived_claim archive = operation λ store.
      let r = released (claim_release_fields (archived_job archive store)) store in
      (ok r.0, record store { claims = r.1 })

  -- A refused release is noted in the archive.
  unfoldable pub note_refusal : Text → Result (Unit {0}) (Unit {0}) → Action M (Unit {0})
  note_refusal archive (ok done) = return tt
  note_refusal archive (err refused) =
      file_operation (annotate_failed archive (λ a. record a { release_refused = true }))

  unfoldable pub release_claim_for_failure : Text → Action M (Unit {0})
  unfolding release_archived_claim note_refusal
  release_claim_for_failure archive = release_archived_claim archive >>= note_refusal archive

  -- A name in the failed archives that is not taken: the job's own, or one with a token.
  unfoldable pub failed_destination : Text → Action M Text
  failed_destination id = with_store λ store.
      if in_dict id store.failed
      then (token_hex tools.token >>= λ token. return (id ++ codes "-" ++ token))
      else return id

  unfoldable pub move_if_running : Text → Text → Action M (Unit {0})
  move_if_running name dir =
      with_store λ store.
        if in_dict name store.running then file_operation (move_job name dir) else return tt

  unfoldable pub archive_failure : (name job_id outcome : Text) → Action M Text
  unfolding failed_destination move_if_running release_claim_for_failure
  archive_failure name job_id outcome = pure_call (safe_id job_id) >>= λ id.
      failed_destination id >>= λ destination. token_hex tools.token >>= λ token.
      let dir = codes "failure-" ++ id ++ codes "-" ++ token in
      file_operation (make_staging dir)
      >> move_if_running name dir
      >> file_operation (write_outcome dir outcome)
      >> file_operation (publish_failed dir destination)
      >> release_claim_for_failure destination
      >> return destination

  unfoldable pub archive_interrupted : List Text → Action M (Unit {0})
  unfolding archive_failure
  archive_interrupted [] = return tt
  archive_interrupted (name ∷ names) =
      archive_failure name (stem name) (codes "interrupted") >> archive_interrupted names

  unfoldable pub recover_staging : List Text → Action M (Unit {0})
  recover_staging [] = return tt
  recover_staging (dir ∷ dirs) = token_hex tools.token >>= λ token.
      let destination = codes "archive-recovery-" ++ dir ++ codes "-" ++ token in
      file_operation (publish_failed dir destination)
      >> file_operation (annotate_failed destination (λ a. record a { recovered = true }))
      >> recover_staging dirs

  unfoldable pub recover_interrupted_jobs : Action M (Unit {0})
  unfolding archive_interrupted recover_staging
  recover_interrupted_jobs = with_store λ store.
      archive_interrupted (sort_names (yaml_names store.running))
      >> with_store λ archived. recover_staging (sort_names (file_names archived.staging))

  unfoldable pub archive_success : Text → HostJob → Action M Text
  archive_success name job = with_store λ store.
      refuse_if (in_dict job.job_id store.completed) archive_exists
      >> token_hex tools.token
      >>= λ token.
          let dir = codes "success-" ++ job.job_id ++ codes "-" ++ token in
          file_operation (make_staging dir)
          >> file_operation (copy_job name dir)
          >> call (tools.collect_patches job)
          >> file_operation (write_outcome dir (codes "completed"))
          >> file_operation (unlink_running name)
          >> file_operation (publish_completed dir job.job_id)
          >> return job.job_id
