-- ===== src/Lifecycle/Tests.antt =====
-- Tests of the model of src/msos_autobuilder/lifecycle_evidence.py on an attempt whose publication
-- was drafted.
use msos_autobuilder.Prelude.{
  ◌≡◌, ◌↔◌, refl, none, [], ◌∷◌, codes, Text, ℕ, some, Dict, Result, ok, err,
}
use msos_autobuilder.Json.{string, Fields, no_fields, field, integer, object}
use msos_autobuilder.Lifecycle.Snapshots.{Evidence, category}
use msos_autobuilder.Lifecycle.Reduce.{reduce_identity_heads}
use msos_autobuilder.Lifecycle.Proven.{IsProven}
use msos_autobuilder.Lifecycle.Sufficient.{reduce_identity_heads-category}
use msos_autobuilder.Lifecycle.Heads.{
  HeadError, HeadFile, closed_stream_mutated, sequence_gap, replace_head,
}
use msos_autobuilder.Lifecycle.Heads.Log.{log, Refines, replace_head-Refines}

abbrev recorded : Text → Text → Fields
recorded key value = field key (string value) no_fields

abbrev drafted_attempt : Text → Evidence
drafted_attempt reason = record {
  payloads =
      (codes "dispatch.prepared", no_fields)
      ∷ (codes "dispatch.submitted", no_fields)
      ∷ (codes "host.execution", recorded (codes "execution_outcome") (codes "completed"))
      ∷ (codes "relay.result", recorded (codes "relay_disposition") (codes "relayed"))
      ∷ (codes "gate.validation", recorded (codes "validation_outcome") (codes "passed"))
      ∷ (
        codes "revision.disposition",
        recorded (codes "revision_disposition") (codes "not_applicable"),
      )
      ∷ (
        codes "publication_review.disposition",
        field (codes "publication_review_disposition") (string (codes "drafted"))
            (recorded (codes "reason_code") reason),
      )
      ∷ [];
  merged_reason = λ publication. none;
  drafted_reason = λ descendant. none;
  repr = λ value. [];
}

drafted_is_terminal :
    category (reduce_identity_heads (drafted_attempt (codes "publication_review.drafted.v1")))
    ≡ codes "item_terminal"
unfolding category msos_autobuilder.Prelude.◌==◌ reduce_identity_heads
    msos_autobuilder.Prelude.lookup msos_autobuilder.Json.str_or_empty msos_autobuilder.Json.get
    msos_autobuilder.Json.json_eq msos_autobuilder.Lifecycle.Snapshots.terminal_item
drafted_is_terminal = refl

wrong_reason_is_unknown :
    category
      (reduce_identity_heads (drafted_attempt (codes "revision.exhausted.contract_limit.v1")))
    ≡ codes "unknown"
unfolding category msos_autobuilder.Prelude.◌==◌ reduce_identity_heads
    msos_autobuilder.Prelude.lookup msos_autobuilder.Json.str_or_empty msos_autobuilder.Json.get
    msos_autobuilder.Json.json_eq msos_autobuilder.Lifecycle.Snapshots.terminal_item
wrong_reason_is_unknown = refl

reduce_identity_heads-category_example :
    category (reduce_identity_heads (drafted_attempt (codes "publication_review.drafted.v1")))
      ≡ codes "item_terminal"
    ↔ IsProven (drafted_attempt (codes "publication_review.drafted.v1"))
reduce_identity_heads-category_example =
    reduce_identity_heads-category (drafted_attempt (codes "publication_review.drafted.v1"))

abbrev head_of : ℕ → Text → Text → Fields
head_of sequence id status = field (codes "producer") (string (codes "host")) (
    field (codes "producer_sequence") (integer sequence) (
      field (codes "evidence_id") (string id)
        (field (codes "closed_status") (string status) no_fields)))

abbrev any_head : Fields → Result HeadError (Unit {0})
any_head head = ok tt

abbrev heads_with : Fields → Dict HeadFile
heads_with head = (codes "host.json", some (object head)) ∷ []

closed_is_kept :
    (replace_head any_head
      (codes "host.json")
      (head_of 2 (codes "b") (codes "open"))
      (heads_with (head_of 1 (codes "a") (codes "final")))).0
    ≡ err closed_stream_mutated
unfolding replace_head msos_autobuilder.Prelude.lookup msos_autobuilder.Prelude.◌==◌
closed_is_kept = refl

gap_is_refused :
    (replace_head any_head
      (codes "host.json")
      (head_of 3 (codes "b") (codes "open"))
      (heads_with (head_of 1 (codes "a") (codes "open")))).0
    ≡ err sequence_gap
unfolding replace_head msos_autobuilder.Prelude.lookup msos_autobuilder.Prelude.◌==◌
gap_is_refused = refl

next_is_written :
    replace_head any_head
      (codes "host.json")
      (head_of 2 (codes "b") (codes "final"))
      (heads_with (head_of 1 (codes "a") (codes "open")))
    ≡ (ok tt, heads_with (head_of 2 (codes "b") (codes "final")))
unfolding replace_head msos_autobuilder.Prelude.lookup msos_autobuilder.Prelude.◌==◌
    msos_autobuilder.Prelude.insert msos_autobuilder.Prelude.remove
next_is_written = refl

replace_head-Refines_example :
    Refines
      (log (codes "a") [] (codes "open"))
      (codes "host.json")
      (head_of 2 (codes "b") (codes "final"))
      (heads_with (head_of 1 (codes "a") (codes "open")))
      (replace_head any_head
        (codes "host.json")
        (head_of 2 (codes "b") (codes "final"))
        (heads_with (head_of 1 (codes "a") (codes "open"))))
unfolding msos_autobuilder.Prelude.lookup msos_autobuilder.Prelude.◌==◌ msos_autobuilder.Json.get
replace_head-Refines_example =
    replace_head-Refines any_head (codes "host.json")
      (heads_with (head_of 1 (codes "a") (codes "open"))) (log (codes "a") [] (codes "open"))
      (head_of 2 (codes "b") (codes "final")) 2 (codes "b") (codes "final")
      (head_of 1 (codes "a") (codes "open"), refl, (refl, refl, refl)) (refl, refl, refl)
