-- ===== src/Lifecycle/Snapshots.antt =====
-- Snapshots of src/msos_autobuilder/lifecycle_evidence.py, the table of terminal reasons, and what
-- `_blocked` and `_terminal_item` make of a snapshot.
use msos_autobuilder.Prelude.{
  Bool, true, false, ◌&&◌, Option, none, some, [], ◌∷◌, Text, codes, ◌==◌, Dict, lookup,
  if◌then◌else◌,
}
use msos_autobuilder.Json.{Json, Fields, get, str_or_empty}

pub record Snapshot : Type 0 where
  pub lifecycle_phase : Text
  pub execution_outcome : Text
  pub validation_outcome : Text
  pub revision_disposition : Text
  pub publication_review_disposition : Text
  pub attempt_terminal : Bool
  pub attempt_terminality : Text
  pub item_terminal : Bool
  pub item_disposition : Text
  pub retry_eligibility : Text
  pub evidence_integrity : Text
  pub refill_action : Text

abbrev pub new_snapshot : Snapshot
new_snapshot = record {
  lifecycle_phase = codes "dispatch_prepared";
  execution_outcome = codes "not_started";
  validation_outcome = codes "not_recorded";
  revision_disposition = codes "not_recorded";
  publication_review_disposition = codes "not_recorded";
  attempt_terminal = false;
  attempt_terminality = codes "in_flight";
  item_terminal = false;
  item_disposition = codes "in_flight";
  retry_eligibility = codes "not_applicable";
  evidence_integrity = codes "complete";
  refill_action = codes "block_fail_closed";
}

pub record TerminalReason : Type 0 where
  pub canonical_outcome : Text
  pub item_disposition : Text
  pub refill_action : Text

abbrev reason_for : Text → Text → TerminalReason
reason_for outcome disposition = record {
  canonical_outcome = outcome;
  item_disposition = disposition;
  refill_action = codes "exclude_item_and_select_next";
}

abbrev pub terminal_reason_codes : Dict TerminalReason
terminal_reason_codes =
    (
      codes "publication_review.drafted.v1",
      reason_for (codes "publication_review_disposition=drafted")
          (codes "item_terminal_success_drafted"),
    )
    ∷ (
      codes "publication_review.merged.verified.v1",
      reason_for (codes "publication_review_disposition=merged")
          (codes "item_terminal_success_merged"),
    )
    ∷ (
      codes "publication_review.no_publication.not_required.v1",
      reason_for (codes "publication_review_disposition=terminal_no_publication")
          (codes "item_terminal_no_publication"),
    )
    ∷ (
      codes "publication_review.no_publication.out_of_scope.v1",
      reason_for (codes "publication_review_disposition=terminal_no_publication")
          (codes "item_terminal_no_publication"),
    )
    ∷ (
      codes "publication_review.rejected.duplicate_or_obsolete.v1",
      reason_for (codes "publication_review_disposition=rejected") (codes "item_terminal_rejected"),
    )
    ∷ (
      codes "publication_review.rejected.founder_declined.v1",
      reason_for (codes "publication_review_disposition=rejected") (codes "item_terminal_rejected"),
    )
    ∷ (
      codes "revision.exhausted.contract_limit.v1",
      reason_for (codes "validation_outcome=failed,revision_disposition=exhausted")
          (codes "item_terminal_revision_exhausted"),
    )
    ∷ (
      codes "revision.exhausted.no_valid_repair.v1",
      reason_for (codes "validation_outcome=failed,revision_disposition=exhausted")
          (codes "item_terminal_revision_exhausted"),
    )
    ∷ []

-- `_blocked(snapshot, integrity, disposition)`
unfoldable pub blocked : Text → Text → Snapshot → Snapshot
blocked integrity disposition snapshot = record snapshot {
  lifecycle_phase = codes "blocked";
  evidence_integrity = integrity;
  attempt_terminality = if snapshot.attempt_terminal then codes "terminal" else codes "blocked";
  item_terminal = false;
  item_disposition = disposition;
  refill_action = codes "block_fail_closed";
}

unfoldable pub with_reason : Text → Option TerminalReason → Snapshot → Snapshot
unfolding blocked
with_reason disposition none snapshot =
    blocked (codes "evidence_conflict") (codes "operator_required_unknown_terminal_reason") snapshot
with_reason disposition (some expected) snapshot =
    if expected.item_disposition == disposition
    then record snapshot {
      attempt_terminal = true;
      attempt_terminality = codes "terminal";
      item_terminal = true;
      item_disposition = disposition;
      retry_eligibility = codes "not_applicable";
      refill_action = expected.refill_action;
    }
    else blocked (codes "evidence_conflict") (codes "operator_required_unknown_terminal_reason")
        snapshot

-- `_terminal_item(snapshot, disposition, reason_code)`
unfoldable pub terminal_item : Text → Text → Snapshot → Snapshot
unfolding with_reason
terminal_item disposition reason_code =
    with_reason disposition (lookup reason_code terminal_reason_codes)

-- The payloads of an attempt's evidence by their kind, the proofs that the reduction looks for in
-- other records, and `str` of a list or a dictionary.
pub record Evidence : Type 0 where
  pub payloads : Dict Fields
  pub merged_reason : Option Fields → Option Text
  pub drafted_reason : Json → Option Text
  pub repr : Json → Text

abbrev pub payload : Evidence → Text → Option Fields
payload evidence kind = lookup kind evidence.payloads

-- `str(payload.get(key) or "")`
abbrev pub text_at : Evidence → Text → Fields → Text
text_at evidence key fields = str_or_empty evidence.repr (get key fields)

-- The category of `canonical_refill_classification_locked` for a fresh snapshot.
unfoldable pub category : Snapshot → Text
category snapshot =
    if snapshot.refill_action == codes "exclude_item_and_select_next" && snapshot.item_terminal
    then codes "item_terminal"
    else if snapshot.attempt_terminality == codes "in_flight"
    then codes "in_flight"
    else codes "unknown"
