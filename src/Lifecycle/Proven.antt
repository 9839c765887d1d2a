-- ===== src/Lifecycle/Proven.antt =====
-- The evidence that ends an item for src/msos_autobuilder/lifecycle_evidence.py: the endings of a
-- publication, an exhausted revision, the draft of a descendant, and a merged completion.
use msos_autobuilder.Prelude.{◌≡◌, ◌⊎◌, true, some, [], ◌∷◌, Text, codes, ◌==◌, Dict, lookup}
use msos_autobuilder.Json.{string, Fields, get, json_eq}
use msos_autobuilder.Lifecycle.Snapshots.{
  TerminalReason, terminal_reason_codes, Evidence, payload, text_at,
}
use msos_autobuilder.Lifecycle.Reduce.{reason_of}

-- The reason is in the table, for that disposition of the item.
abbrev pub Accepts : (disposition reason : Text) → Type 0
Accepts disposition reason =
    (code : TerminalReason) × (lookup reason terminal_reason_codes ≡ some code)
    × ((code.item_disposition == disposition) ≡ true)

-- The dispositions of a publication that end the item.
abbrev pub publication_endings : Dict Text
publication_endings =
    (codes "drafted", codes "item_terminal_success_drafted")
    ∷ (codes "merged", codes "item_terminal_success_merged")
    ∷ (codes "rejected", codes "item_terminal_rejected")
    ∷ (codes "terminal_no_publication", codes "item_terminal_no_publication")
    ∷ []

-- The attempt was dispatched, and the host recorded this outcome of its execution.
pub record IsExecuted (evidence : Evidence) (execution : Text) : Type 0 where
  pub prepared : Fields
  pub submitted : Fields
  pub host : Fields
  pub is_prepared : payload evidence (codes "dispatch.prepared") ≡ some prepared
  pub is_submitted : payload evidence (codes "dispatch.submitted") ≡ some submitted
  pub is_host : payload evidence (codes "host.execution") ≡ some host
  pub is_execution : text_at evidence (codes "execution_outcome") host ≡ execution

-- The execution completed, its result was relayed, and the gate recorded this validation.
pub record IsValidated (evidence : Evidence) (validation : Text) : Type 0 where
  pub executed : IsExecuted evidence (codes "completed")
  pub relay : Fields
  pub gate : Fields
  pub is_relay : payload evidence (codes "relay.result") ≡ some relay
  pub relayed : json_eq (get (codes "relay_disposition") relay) (string (codes "relayed")) ≡ true
  pub is_gate : payload evidence (codes "gate.validation") ≡ some gate
  pub is_validation : text_at evidence (codes "validation_outcome") gate ≡ validation

-- The four ways to prove that an item has ended.
pub data IsProven (evidence : Evidence) : Type 0 where
  published :
      (revision publication : Fields) (ending : Text)
      → IsValidated evidence (codes "passed")
      → payload evidence (codes "revision.disposition") ≡ some revision
      → json_eq (get (codes "revision_disposition") revision) (string (codes "not_applicable"))
        ≡ true
      → payload evidence (codes "publication_review.disposition") ≡ some publication
      → lookup
          (text_at evidence (codes "publication_review_disposition") publication)
          publication_endings
        ≡ some ending
      → Accepts ending (reason_of evidence publication)
      → IsProven evidence
  exhausted :
      (revision : Fields)
      → IsValidated evidence (codes "failed")
      → payload evidence (codes "revision.disposition") ≡ some revision
      → text_at evidence (codes "revision_disposition") revision ≡ codes "exhausted"
      → Accepts (codes "item_terminal_revision_exhausted") (reason_of evidence revision)
      → IsProven evidence
  drafted_by_descendant :
      (revision : Fields) (reason : Text)
      → IsValidated evidence (codes "failed")
      → payload evidence (codes "revision.disposition") ≡ some revision
      → text_at evidence (codes "revision_disposition") revision ≡ codes "queued"
      → evidence.drafted_reason (get (codes "descendant_job_id") revision) ≡ some reason
      → Accepts (codes "item_terminal_success_drafted") reason
      → IsProven evidence
  merged_later :
      (execution reason : Text)
      → IsExecuted evidence execution
      → (execution ≡ codes "failed") ⊎ (execution ≡ codes "interrupted")
      → evidence.merged_reason (payload evidence (codes "publication_review.disposition"))
        ≡ some reason
      → Accepts (codes "item_terminal_success_merged") reason
      → IsProven evidence
