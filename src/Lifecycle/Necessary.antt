-- ===== src/Lifecycle/Necessary.antt =====
-- The reduction of src/msos_autobuilder/lifecycle_evidence.py makes an item terminal only when the
-- evidence proves it: the stages of `_reduce_identity_heads` from the gate back to the preparation.
use msos_autobuilder.Prelude.{
  ◌≡◌, refl, sym, ◌⊎◌, inl, inr, true, false, Option, none, some, [], ◌∷◌, Text, codes, ◌==◌,
  ==_iff, text_mem, Bool-cases, arith,
}
use msos_autobuilder.Json.{string, Fields, get, json_eq}
use msos_autobuilder.Lifecycle.Snapshots.{
  Snapshot, new_snapshot, Evidence, payload, text_at, blocked,
}
use msos_autobuilder.Lifecycle.Reduce.{
  validation_step, gate_stage, relay_stage, merged_stage, execution_step, host_stage,
  submitted_stage, prepared_stage, reduce_identity_heads,
}
use msos_autobuilder.Lifecycle.Proven.{IsExecuted, IsValidated, IsProven, merged_later}
use msos_autobuilder.Lifecycle.Endings.{
  if_terminal, terminal_item-Accepts, passed_stage-IsProven, failed_stage-IsProven,
}

module _ (evidence : Evidence) where
  gate_stage-IsProven :
      (relay : Fields) (found : Option Fields) (s : Snapshot)
      → IsExecuted evidence (codes "completed")
      → payload evidence (codes "relay.result") ≡ some relay
      → json_eq (get (codes "relay_disposition") relay) (string (codes "relayed")) ≡ true
      → payload evidence (codes "gate.validation") ≡ found
      → s.item_terminal ≡ false
      → (gate_stage evidence found s).item_terminal ≡ true
      → IsProven evidence
  unfolding gate_stage validation_step blocked
  gate_stage-IsProven relay none s executed r relayed e not_yet h = absurd cc
  gate_stage-IsProven relay (some gate) s executed r relayed e not_yet h =
      let validation = text_at evidence (codes "validation_outcome") gate in
      let valid : (v : Text) → (validation == v) ≡ true → IsValidated evidence v = λ v same.
        record {
          executed = executed;
          relay = relay;
          gate = gate;
          is_relay = r;
          relayed = relayed;
          is_gate = e;
          is_validation = (==_iff validation v).0 same;
        } in
      elim (if_terminal
        (text_mem validation (codes "blocked" ∷ codes "missing" ∷ codes "conflict" ∷ [])) _ _ h) [
          | inl (t, k) ↦ absurd cc
          | inr (f, h1) ↦ elim (if_terminal (validation == codes "failed") _ _ h1) [
            | inl (t, k) ↦
                failed_stage-IsProven evidence _ _ (valid (codes "failed") t) refl not_yet k
            | inr (f1, h2) ↦ elim (if_terminal (validation == codes "passed") _ _ h2) [
              | inl (t, k) ↦
                  passed_stage-IsProven evidence _ _ (valid (codes "passed") t) refl not_yet k
              | inr (f2, k) ↦ absurd cc
            ]
          ]
        ]

  relay_stage-IsProven :
      (found : Option Fields) (s : Snapshot)
      → IsExecuted evidence (codes "completed")
      → payload evidence (codes "relay.result") ≡ found
      → s.item_terminal ≡ false
      → (relay_stage evidence found s).item_terminal ≡ true
      → IsProven evidence
  unfolding relay_stage blocked
  relay_stage-IsProven none s executed e not_yet h = absurd cc
  relay_stage-IsProven (some relay) s executed e not_yet h =
      elim (if_terminal (json_eq (get (codes "relay_disposition") relay) (string (codes "relayed")))
        _ _ h) [
          | inl (relayed, k) ↦ gate_stage-IsProven relay _ _ executed e relayed refl not_yet k
          | inr (f, k) ↦ absurd cc
        ]

  merged_stage-IsProven :
      (execution : Text) (found : Option Text) (s : Snapshot)
      → IsExecuted evidence execution
      → (execution ≡ codes "failed") ⊎ (execution ≡ codes "interrupted")
      → evidence.merged_reason (payload evidence (codes "publication_review.disposition")) ≡ found
      → (merged_stage evidence found s).item_terminal ≡ true
      → IsProven evidence
  unfolding merged_stage blocked
  merged_stage-IsProven execution none s executed bad e h = absurd cc
  merged_stage-IsProven execution (some reason) s executed bad e h =
      merged_later execution reason executed bad e (terminal_item-Accepts _ _ _ h)

  bad_execution :
      (execution : Text)
      → text_mem execution (codes "failed" ∷ codes "interrupted" ∷ []) ≡ true
      → (execution ≡ codes "failed") ⊎ (execution ≡ codes "interrupted")
  unfolding text_mem
  bad_execution execution h = elim (Bool-cases (codes "failed" == execution)) [
    | inl t ↦ inl (sym ((==_iff (codes "failed") execution).0 t))
    | inr f ↦ inr (sym ((==_iff (codes "interrupted") execution).0 (ground arith)))
  ]

  host_stage-IsProven :
      (prepared submitted : Fields) (found : Option Fields) (s : Snapshot)
      → payload evidence (codes "dispatch.prepared") ≡ some prepared
      → payload evidence (codes "dispatch.submitted") ≡ some submitted
      → payload evidence (codes "host.execution") ≡ found
      → s.item_terminal ≡ false
      → (host_stage evidence found s).item_terminal ≡ true
      → IsProven evidence
  unfolding host_stage execution_step blocked
  host_stage-IsProven prepared submitted none s p d e not_yet h = absurd cc
  host_stage-IsProven prepared submitted (some host) s p d e not_yet h =
      let execution = text_at evidence (codes "execution_outcome") host in
      let executed : (x : Text) → execution ≡ x → IsExecuted evidence x = λ x same. record {
        prepared = prepared;
        submitted = submitted;
        host = host;
        is_prepared = p;
        is_submitted = d;
        is_host = e;
        is_execution = same;
      } in
      elim (if_terminal
        (text_mem execution (codes "imported" ∷ codes "pending" ∷ codes "running" ∷ [])) _ _ h) [
          | inl (t, k) ↦ absurd cc
          | inr (f, h1) ↦
              elim (if_terminal (text_mem execution (codes "failed" ∷ codes "interrupted" ∷ [])) _ _
                h1) [
                  | inl (t, k) ↦
                      merged_stage-IsProven execution _ _ (executed execution refl)
                        (bad_execution execution t) refl k
                  | inr (f1, h2) ↦ elim (if_terminal (execution == codes "completed") _ _ h2) [
                    | inl (t, k) ↦
                        relay_stage-IsProven _ _
                          (executed (codes "completed")
                            ((==_iff execution (codes "completed")).0 t))
                          refl not_yet k
                    | inr (f2, k) ↦ absurd cc
                  ]
                ]
        ]

  submitted_stage-IsProven :
      (prepared : Fields) (found : Option Fields)
      → payload evidence (codes "dispatch.prepared") ≡ some prepared
      → payload evidence (codes "dispatch.submitted") ≡ found
      → (submitted_stage evidence found new_snapshot).item_terminal ≡ true
      → IsProven evidence
  unfolding submitted_stage
  submitted_stage-IsProven prepared none p e h = absurd cc
  submitted_stage-IsProven prepared (some submitted) p e h =
      host_stage-IsProven prepared submitted _ _ p e refl refl h

  prepared_stage-IsProven :
      (found : Option Fields)
      → payload evidence (codes "dispatch.prepared") ≡ found
      → (prepared_stage evidence found new_snapshot).item_terminal ≡ true
      → IsProven evidence
  unfolding prepared_stage blocked
  prepared_stage-IsProven none e h = absurd cc
  prepared_stage-IsProven (some prepared) e h = submitted_stage-IsProven prepared _ e refl h

  pub reduce_identity_heads-IsProven :
      (reduce_identity_heads evidence).item_terminal ≡ true → IsProven evidence
  unfolding reduce_identity_heads
  reduce_identity_heads-IsProven h = prepared_stage-IsProven _ refl h
