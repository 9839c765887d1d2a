-- ===== src/Lifecycle/Reduce.antt =====
-- `_reduce_identity_heads` of src/msos_autobuilder/lifecycle_evidence.py, one function per kind of
-- evidence, in the order of the source. The snapshot is passed along as the source changes it.
use msos_autobuilder.Prelude.{
  true, Option, none, some, [], ◌∷◌, ◌++◌, Text, codes, ◌==◌, text_mem, if◌then◌else◌,
}
use msos_autobuilder.Text.{is_empty}
use msos_autobuilder.Json.{string, Fields, get, json_eq}
use msos_autobuilder.Lifecycle.Snapshots.{
  Snapshot, new_snapshot, Evidence, payload, text_at, blocked, terminal_item,
}

abbrev or_missing : Text → Text
or_missing text = if is_empty text then codes "missing" else text

module _ (evidence : Evidence) where
  abbrev pub reason_of : Fields → Text
  reason_of fields = text_at evidence (codes "reason_code") fields

  unfoldable pub publication_outcome : Fields → Text → Snapshot → Snapshot
  publication_outcome publication disposition snapshot =
      if disposition == codes "awaiting_review"
      then snapshot
      else if disposition == codes "drafted"
      then terminal_item (codes "item_terminal_success_drafted") (reason_of publication) snapshot
      else if disposition == codes "merged"
      then terminal_item (codes "item_terminal_success_merged") (reason_of publication) snapshot
      else if disposition == codes "rejected"
      then terminal_item (codes "item_terminal_rejected") (reason_of publication) snapshot
      else if disposition == codes "terminal_no_publication"
      then terminal_item (codes "item_terminal_no_publication") (reason_of publication) snapshot
      else blocked (codes "evidence_" ++ or_missing disposition)
          (codes "operator_required_publication_blocked") snapshot

  unfoldable pub publication_stage : Option Fields → Snapshot → Snapshot
  unfolding publication_outcome
  publication_stage none snapshot =
      blocked (codes "evidence_missing") (codes "operator_required_publication_blocked") snapshot
  publication_stage (some publication) snapshot =
      let disposition = text_at evidence (codes "publication_review_disposition") publication in
      publication_outcome publication disposition (record snapshot {
        lifecycle_phase = codes "publication_review_recorded";
        publication_review_disposition = disposition;
      })

  -- The validation passed: the revision must be recorded as not applicable.
  unfoldable pub passed_stage : Option Fields → Snapshot → Snapshot
  unfolding publication_stage
  passed_stage none snapshot =
      blocked (codes "evidence_missing") (codes "operator_required_revision_blocked") snapshot
  passed_stage (some revision) snapshot =
      if json_eq (get (codes "revision_disposition") revision) (string (codes "not_applicable"))
      then publication_stage (payload evidence (codes "publication_review.disposition"))
          (record snapshot { revision_disposition = codes "not_applicable" })
      else blocked (codes "evidence_missing") (codes "operator_required_revision_blocked") snapshot

  -- A queued revision is settled by the draft of a descendant, if there is one.
  unfoldable pub queued_stage : Option Text → Snapshot → Snapshot
  queued_stage none snapshot = snapshot
  queued_stage (some drafted_reason) snapshot =
      terminal_item (codes "item_terminal_success_drafted") drafted_reason (record snapshot {
        lifecycle_phase = codes "publication_review_recorded";
        publication_review_disposition = codes "drafted";
      })

  unfoldable pub revision_outcome : Fields → Text → Snapshot → Snapshot
  unfolding queued_stage
  revision_outcome revision disposition snapshot =
      if disposition == codes "queued"
      then queued_stage (evidence.drafted_reason (get (codes "descendant_job_id") revision))
          snapshot
      else if disposition == codes "exhausted"
      then terminal_item (codes "item_terminal_revision_exhausted") (reason_of revision) snapshot
      else blocked (codes "evidence_" ++ or_missing disposition)
          (codes "operator_required_revision_blocked") snapshot

  -- The validation failed.
  unfoldable pub failed_stage : Option Fields → Snapshot → Snapshot
  unfolding revision_outcome
  failed_stage none snapshot =
      blocked (codes "evidence_missing") (codes "operator_required_revision_blocked") snapshot
  failed_stage (some revision) snapshot =
      let disposition = text_at evidence (codes "revision_disposition") revision in
      revision_outcome revision disposition (record snapshot {
        lifecycle_phase = codes "revision_recorded";
        revision_disposition = disposition;
      })

  unfoldable pub validation_step : Text → Snapshot → Snapshot
  unfolding failed_stage passed_stage text_mem
  validation_step validation snapshot =
      if text_mem validation (codes "blocked" ∷ codes "missing" ∷ codes "conflict" ∷ [])
      then blocked (codes "evidence_" ++ validation) (codes "operator_required_validation_blocked")
          snapshot
      else if validation == codes "failed"
      then failed_stage (payload evidence (codes "revision.disposition")) snapshot
      else if validation == codes "passed"
      then passed_stage (payload evidence (codes "revision.disposition")) snapshot
      else blocked (codes "evidence_conflict") (codes "operator_required_validation_blocked")
          snapshot

  unfoldable pub gate_stage : Option Fields → Snapshot → Snapshot
  unfolding validation_step
  gate_stage none snapshot =
      blocked (codes "evidence_missing") (codes "operator_required_evidence_missing") snapshot
  gate_stage (some gate) snapshot =
      let validation = text_at evidence (codes "validation_outcome") gate in
      validation_step validation (record snapshot {
        lifecycle_phase = codes "validation_recorded";
        validation_outcome = validation;
      })

  unfoldable pub relay_stage : Option Fields → Snapshot → Snapshot
  unfolding gate_stage
  relay_stage none snapshot =
      blocked (codes "evidence_missing") (codes "operator_required_evidence_missing") snapshot
  relay_stage (some relay) snapshot =
      if json_eq (get (codes "relay_disposition") relay) (string (codes "relayed"))
      then gate_stage (payload evidence (codes "gate.validation"))
          (record snapshot { lifecycle_phase = codes "result_relayed" })
      else blocked (codes "evidence_missing") (codes "operator_required_evidence_missing") snapshot

  -- A failed execution is settled by the proof of a merged completion, if there is one.
  unfoldable pub merged_stage : Option Text → Snapshot → Snapshot
  merged_stage none snapshot =
      blocked (codes "complete") (codes "operator_required_execution_failed") snapshot
  merged_stage (some merged_reason) snapshot =
      terminal_item (codes "item_terminal_success_merged") merged_reason (record snapshot {
        lifecycle_phase = codes "publication_review_recorded";
        publication_review_disposition = codes "merged";
      })

  unfoldable pub execution_step : Text → Snapshot → Snapshot
  unfolding merged_stage relay_stage text_mem
  execution_step execution snapshot =
      if text_mem execution (codes "imported" ∷ codes "pending" ∷ codes "running" ∷ [])
      then record snapshot {
        lifecycle_phase =
            codes "host_" ++ (if execution == codes "imported" then codes "pending" else execution);
        execution_outcome =
            if execution == codes "running" then codes "running" else codes "not_started";
      }
      else if text_mem execution (codes "failed" ∷ codes "interrupted" ∷ [])
      then merged_stage
          (evidence.merged_reason (payload evidence (codes "publication_review.disposition")))
          (record snapshot {
            lifecycle_phase = codes "execution_archived";
            execution_outcome = execution;
            attempt_terminal = true;
            attempt_terminality = codes "terminal";
            retry_eligibility = codes "operator_required";
          })
      else if execution == codes "completed"
      then relay_stage (payload evidence (codes "relay.result")) (record snapshot {
        lifecycle_phase = codes "execution_archived";
        execution_outcome = codes "completed";
      })
      else blocked (codes "evidence_conflict") (codes "operator_required_evidence_conflict")
          snapshot

  unfoldable pub host_stage : Option Fields → Snapshot → Snapshot
  unfolding execution_step
  host_stage none snapshot = record snapshot { lifecycle_phase = codes "host_awaiting_import" }
  host_stage (some host) snapshot =
      execution_step (text_at evidence (codes "execution_outcome") host) snapshot

  unfoldable pub submitted_stage : Option Fields → Snapshot → Snapshot
  unfolding host_stage
  submitted_stage none snapshot = snapshot
  submitted_stage (some submitted) snapshot =
      host_stage (payload evidence (codes "host.execution"))
        (record snapshot { lifecycle_phase = codes "dispatch_submitted" })

  unfoldable pub prepared_stage : Option Fields → Snapshot → Snapshot
  unfolding submitted_stage
  prepared_stage none snapshot =
      blocked (codes "evidence_missing") (codes "operator_required_evidence_missing") snapshot
  prepared_stage (some prepared) snapshot =
      submitted_stage (payload evidence (codes "dispatch.submitted")) snapshot

  -- From the loaded payloads of one identity; the checks of the heads before that are left out.
  unfoldable pub reduce_identity_heads : Snapshot
  unfolding prepared_stage
  reduce_identity_heads = prepared_stage (payload evidence (codes "dispatch.prepared")) new_snapshot
