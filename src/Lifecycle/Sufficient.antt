-- ===== src/Lifecycle/Sufficient.antt =====
-- The reduction of src/msos_autobuilder/lifecycle_evidence.py makes an item terminal whenever the
-- evidence proves it, and then the classification excludes the item from the refill.
use msos_autobuilder.Prelude.{
  ◌≡◌, refl, subst, inl, inr, true, some, [], ◌∷◌, Text, codes, ◌==◌, ==_iff, text_mem, Dict,
  lookup, Bool-cases, ◌↔◌, All, arith,
}
use msos_autobuilder.Json.{Fields}
use msos_autobuilder.Lifecycle.Snapshots.{
  Snapshot, new_snapshot, TerminalReason, terminal_reason_codes, Evidence, with_reason,
  terminal_item, category,
}
use msos_autobuilder.Lifecycle.Reduce.{
  reason_of, publication_outcome, publication_stage, passed_stage, queued_stage, revision_outcome,
  failed_stage, validation_step, gate_stage, relay_stage, merged_stage, execution_step, host_stage,
  submitted_stage, prepared_stage, reduce_identity_heads,
}
use msos_autobuilder.Lifecycle.Proven.{
  Accepts, publication_endings, IsExecuted, IsValidated, IsProven, published, exhausted,
  drafted_by_descendant, merged_later,
}
use msos_autobuilder.Lifecycle.Necessary.{reduce_identity_heads-IsProven}

abbrev dispatched : Snapshot
dispatched = record new_snapshot { lifecycle_phase = codes "dispatch_submitted" }

abbrev validated : Text → Snapshot
validated validation = record new_snapshot {
  lifecycle_phase = codes "validation_recorded";
  execution_outcome = codes "completed";
  validation_outcome = validation;
}

-- What holds of every entry of a table holds of an entry that is found.
lookup-All :
    {V : Type 0} (P : Text × V → Type 0) (k : Text) (w : V) (d : Dict V)
    → All P d
    → lookup k d ≡ some w
    → P (k, w)
unfolding lookup
lookup-All P k w [] all h = absurd cc
lookup-All P k w ((j, v) ∷ d) (first, rest) h = elim (Bool-cases (j == k)) [
  | inl t ↦ subst P (grind (arith, ==_iff j k)) first
  | inr f ↦ lookup-All P k w d rest (ground arith)
]

-- Every reason of the table excludes the item.
reason_excludes :
    (reason : Text) (code : TerminalReason)
    → lookup reason terminal_reason_codes ≡ some code
    → code.refill_action ≡ codes "exclude_item_and_select_next"
reason_excludes reason code =
    lookup-All (λ e. e.1.refill_action ≡ codes "exclude_item_and_select_next") reason code _
      (refl, (refl, (refl, (refl, (refl, (refl, (refl, (refl, tt))))))))

IsExcluded : Snapshot → Type 0
IsExcluded snapshot =
    (snapshot.item_terminal ≡ true)
    × (snapshot.refill_action ≡ codes "exclude_item_and_select_next")

terminal_item-IsExcluded :
    (disposition reason : Text) (snapshot : Snapshot)
    → Accepts disposition reason
    → IsExcluded (terminal_item disposition reason snapshot)
unfolding terminal_item with_reason IsExcluded
terminal_item-IsExcluded disposition reason snapshot (code, found, same) =
    rw found (rw same (refl, reason_excludes reason code found))

category-IsExcluded :
    (snapshot : Snapshot) → IsExcluded snapshot → category snapshot ≡ codes "item_terminal"
unfolding category IsExcluded ◌==◌
category-IsExcluded snapshot (terminal, refill) = rw refill (rw terminal refl)

category-item_terminal :
    (snapshot : Snapshot)
    → category snapshot ≡ codes "item_terminal"
    → snapshot.item_terminal ≡ true
unfolding category
category-item_terminal snapshot h = elim (Bool-cases snapshot.item_terminal) [
  | inl t ↦ t
  | inr f ↦ absurd (ground arith)
]

module _ (evidence : Evidence) where
  reduce-IsExecuted :
      (execution : Text)
      → IsExecuted evidence execution
      → reduce_identity_heads evidence ≡ execution_step evidence execution dispatched
  unfolding reduce_identity_heads prepared_stage submitted_stage host_stage
  reduce-IsExecuted execution executed =
      rw (executed.is_prepared)
        (rw (executed.is_submitted) (rw (executed.is_host) (rw (executed.is_execution) refl)))

  reduce-IsValidated :
      (validation : Text)
      → IsValidated evidence validation
      → reduce_identity_heads evidence ≡ validation_step evidence validation (validated validation)
  unfolding execution_step relay_stage gate_stage text_mem ◌==◌
  reduce-IsValidated validation valid = rw (reduce-IsExecuted (codes "completed") valid.executed) (
      rw (valid.is_relay) (rw (valid.relayed) (rw (valid.is_gate) (rw (valid.is_validation) refl))))

  publication_outcome-listed :
      (publication : Fields) (disposition ending : Text) (s : Snapshot)
      → lookup disposition publication_endings ≡ some ending
      → publication_outcome evidence publication disposition s
        ≡ terminal_item ending (reason_of evidence publication) s
  unfolding publication_outcome ◌==◌
  publication_outcome-listed publication disposition ending s =
      lookup-All
        (λ e.
          publication_outcome evidence publication e.0 s
          ≡ terminal_item e.1 (reason_of evidence publication) s)
        disposition ending _ (refl, (refl, (refl, (refl, tt))))

  IsProven-IsExcluded : IsProven evidence → IsExcluded (reduce_identity_heads evidence)
  unfolding validation_step passed_stage publication_stage failed_stage revision_outcome
      queued_stage execution_step merged_stage text_mem ◌==◌
  IsProven-IsExcluded (published revision publication ending valid e na p listed accepts) =
      rw (reduce-IsValidated (codes "passed") valid) (
        rw e (
          rw na (
            rw p (
              rw (publication_outcome-listed publication _ ending _ listed)
                (terminal_item-IsExcluded _ _ _ accepts)))))
  IsProven-IsExcluded (exhausted revision valid e disposition accepts) =
      rw (reduce-IsValidated (codes "failed") valid)
        (rw e (rw disposition (terminal_item-IsExcluded _ _ _ accepts)))
  IsProven-IsExcluded (drafted_by_descendant revision reason valid e queued drafted accepts) =
      rw (reduce-IsValidated (codes "failed") valid)
        (rw e (rw queued (rw drafted (terminal_item-IsExcluded _ _ _ accepts))))
  IsProven-IsExcluded (merged_later execution reason executed (inl bad) merged accepts) =
      rw (reduce-IsExecuted execution executed)
        (rw bad (rw merged (terminal_item-IsExcluded _ _ _ accepts)))
  IsProven-IsExcluded (merged_later execution reason executed (inr bad) merged accepts) =
      rw (reduce-IsExecuted execution executed)
        (rw bad (rw merged (terminal_item-IsExcluded _ _ _ accepts)))

  -- The snapshot that the evidence of an attempt reduces to is classified as item_terminal, which is
  -- how the refill excludes the item, exactly when the evidence proves that the item has ended: the
  -- attempt was prepared, submitted and executed, and then (published) it completed, its result was
  -- relayed, the gate passed it, the revision is not applicable and the publication review is
  -- drafted, merged, rejected or terminal without a publication; or (exhausted) the gate failed it
  -- and the revisions are exhausted; or (drafted by a descendant) the gate failed it and the queued
  -- revision has a drafted proof; or (merged later) the execution failed or was interrupted and there
  -- is a proof of a merged completion; in each case with a reason code that the table of reasons
  -- lists for that ending.
  pub reduce_identity_heads-category :
      category (reduce_identity_heads evidence) ≡ codes "item_terminal" ↔ IsProven evidence
  reduce_identity_heads-category = (
    λ h. reduce_identity_heads-IsProven evidence (category-item_terminal _ h),
    λ proof. category-IsExcluded _ (IsProven-IsExcluded proof),
  )
