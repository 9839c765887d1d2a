-- ===== src/Lifecycle/Endings.antt =====
-- What the stages of `_reduce_identity_heads` of src/msos_autobuilder/lifecycle_evidence.py after the
-- gate need to make an item terminal.
use msos_autobuilder.Prelude.{
  ◌≡◌, refl, sym, subst, ◌⊎◌, inl, inr, Bool, true, false, Option, none, some, Text, codes, ◌==◌,
  ==_iff, lookup, if◌then◌else◌, arith,
}
use msos_autobuilder.Json.{string, Fields, get, json_eq}
use msos_autobuilder.Lifecycle.Snapshots.{
  Snapshot, TerminalReason, terminal_reason_codes, Evidence, payload, text_at, blocked, with_reason,
  terminal_item,
}
use msos_autobuilder.Lifecycle.Reduce.{
  reason_of, publication_outcome, publication_stage, passed_stage, queued_stage, revision_outcome,
  failed_stage,
}
use msos_autobuilder.Lifecycle.Proven.{
  Accepts, publication_endings, IsValidated, IsProven, published, exhausted, drafted_by_descendant,
}

pub if_terminal :
    (test : Bool) (x y : Snapshot)
    → (if test then x else y).item_terminal ≡ true
    → ((test ≡ true) × (x.item_terminal ≡ true)) ⊎ ((test ≡ false) × (y.item_terminal ≡ true))
if_terminal true x y h = inl (refl, h)
if_terminal false x y h = inr (refl, h)

pub terminal_item-Accepts :
    (disposition reason : Text) (snapshot : Snapshot)
    → (terminal_item disposition reason snapshot).item_terminal ≡ true
    → Accepts disposition reason
unfolding terminal_item
terminal_item-Accepts disposition reason snapshot h =
    by_code (lookup reason terminal_reason_codes) refl h
  where
    by_code :
        (found : Option TerminalReason)
        → lookup reason terminal_reason_codes ≡ found
        → (with_reason disposition found snapshot).item_terminal ≡ true
        → Accepts disposition reason
    by_code none e k = absurd cc
    by_code (some code) e k = (code, e, ground arith)

-- A disposition that equals a text of the table.
ending_of :
    (disposition name ending : Text)
    → lookup name publication_endings ≡ some ending
    → (disposition == name) ≡ true
    → lookup disposition publication_endings ≡ some ending
ending_of disposition name ending h same =
    subst (λ d. lookup d publication_endings ≡ some ending) (sym ((==_iff disposition name).0 same))
      h

module _ (evidence : Evidence) where
  publication_outcome-ending :
      (publication : Fields) (disposition : Text) (s : Snapshot)
      → s.item_terminal ≡ false
      → (publication_outcome evidence publication disposition s).item_terminal ≡ true
      → (ending : Text) × (lookup disposition publication_endings ≡ some ending)
        × Accepts ending (reason_of evidence publication)
  unfolding publication_outcome blocked lookup ◌==◌
  publication_outcome-ending publication disposition s not_yet h =
      elim (if_terminal (disposition == codes "awaiting_review") _ _ h) [
        | inl (t, k) ↦ absurd cc
        | inr (f, h1) ↦ elim (if_terminal (disposition == codes "drafted") _ _ h1) [
          | inl (t, k) ↦ (
            codes "item_terminal_success_drafted",
            ending_of disposition (codes "drafted") _ refl t,
            terminal_item-Accepts _ _ s k,
          )
          | inr (f1, h2) ↦ elim (if_terminal (disposition == codes "merged") _ _ h2) [
            | inl (t, k) ↦ (
              codes "item_terminal_success_merged",
              ending_of disposition (codes "merged") _ refl t,
              terminal_item-Accepts _ _ s k,
            )
            | inr (f2, h3) ↦ elim (if_terminal (disposition == codes "rejected") _ _ h3) [
              | inl (t, k) ↦ (
                codes "item_terminal_rejected",
                ending_of disposition (codes "rejected") _ refl t,
                terminal_item-Accepts _ _ s k,
              )
              | inr (f3, h4) ↦
                  elim (if_terminal (disposition == codes "terminal_no_publication") _ _ h4) [
                    | inl (t, k) ↦ (
                      codes "item_terminal_no_publication",
                      ending_of disposition (codes "terminal_no_publication") _ refl t,
                      terminal_item-Accepts _ _ s k,
                    )
                    | inr (f4, k) ↦ absurd cc
                  ]
            ]
          ]
        ]
      ]

  publication_stage-IsProven :
      (revision : Fields) (found : Option Fields) (s : Snapshot)
      → IsValidated evidence (codes "passed")
      → payload evidence (codes "revision.disposition") ≡ some revision
      → json_eq (get (codes "revision_disposition") revision) (string (codes "not_applicable"))
        ≡ true
      → payload evidence (codes "publication_review.disposition") ≡ found
      → s.item_terminal ≡ false
      → (publication_stage evidence found s).item_terminal ≡ true
      → IsProven evidence
  unfolding publication_stage blocked
  publication_stage-IsProven revision none s valid e na p not_yet h = absurd cc
  publication_stage-IsProven revision (some publication) s valid e na p not_yet h =
      let (ending, listed, accepts) = publication_outcome-ending publication _ _ not_yet h in
      published revision publication ending valid e na p listed accepts

  pub passed_stage-IsProven :
      (found : Option Fields) (s : Snapshot)
      → IsValidated evidence (codes "passed")
      → payload evidence (codes "revision.disposition") ≡ found
      → s.item_terminal ≡ false
      → (passed_stage evidence found s).item_terminal ≡ true
      → IsProven evidence
  unfolding passed_stage blocked
  passed_stage-IsProven none s valid e not_yet h = absurd cc
  passed_stage-IsProven (some revision) s valid e not_yet h =
      elim (if_terminal
        (json_eq (get (codes "revision_disposition") revision) (string (codes "not_applicable"))) _
        _ h) [
          | inl (na, k) ↦ publication_stage-IsProven revision _ _ valid e na refl not_yet k
          | inr (f, k) ↦ absurd cc
        ]

  queued_stage-IsProven :
      (revision : Fields) (found : Option Text) (s : Snapshot)
      → IsValidated evidence (codes "failed")
      → payload evidence (codes "revision.disposition") ≡ some revision
      → text_at evidence (codes "revision_disposition") revision ≡ codes "queued"
      → evidence.drafted_reason (get (codes "descendant_job_id") revision) ≡ found
      → s.item_terminal ≡ false
      → (queued_stage evidence found s).item_terminal ≡ true
      → IsProven evidence
  unfolding queued_stage
  queued_stage-IsProven revision none s valid e queued d not_yet h = absurd cc
  queued_stage-IsProven revision (some reason) s valid e queued d not_yet h =
      drafted_by_descendant revision reason valid e queued d (terminal_item-Accepts _ _ _ h)

  pub failed_stage-IsProven :
      (found : Option Fields) (s : Snapshot)
      → IsValidated evidence (codes "failed")
      → payload evidence (codes "revision.disposition") ≡ found
      → s.item_terminal ≡ false
      → (failed_stage evidence found s).item_terminal ≡ true
      → IsProven evidence
  unfolding failed_stage revision_outcome blocked
  failed_stage-IsProven none s valid e not_yet h = absurd cc
  failed_stage-IsProven (some revision) s valid e not_yet h =
      let disposition = text_at evidence (codes "revision_disposition") revision in
      elim (if_terminal (disposition == codes "queued") _ _ h) [
        | inl (t, k) ↦
            queued_stage-IsProven revision _ _ valid e ((==_iff disposition (codes "queued")).0 t)
              refl not_yet k
        | inr (f, h1) ↦ elim (if_terminal (disposition == codes "exhausted") _ _ h1) [
          | inl (t, k) ↦
              exhausted revision valid e ((==_iff disposition (codes "exhausted")).0 t)
                (terminal_item-Accepts _ _ _ k)
          | inr (f1, k) ↦ absurd cc
        ]
      ]
