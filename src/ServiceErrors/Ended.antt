-- ===== src/ServiceErrors/Ended.antt =====
-- What the checks of the ledgers of src/msos_autobuilder/service_error_lifecycle.py establish when they
-- pass.
use msos_autobuilder.Prelude.{
  ℕ, ◌≡◌, ◌∙◌, refl, Bool, true, text_mem, sym, subst, ==_iff, Option, none, some, List, [], ◌∷◌,
  Text, codes, keep, All, ok, err, inl, inr, ◌==◌, arith, >>=-eq-ok, raise_if-not->>-eq-ok,
  Bool-cases,
}
use msos_autobuilder.Json.{
  Json, null, boolean, integer, array, object, string, Fields, entries, get,
}
use msos_autobuilder.ServiceErrors.Records.{
  Builtins, parse_utc, is_sha256, is_string_where, no_entry, entry_invalid,
}
use msos_autobuilder.ServiceErrors.Ledgers.{
  require_later, job_entry, require_valid, publication, publisher_terminal_after,
  gate_terminal_after, revision_terminal_after, sole, revision_matches,
  terminal_ledger_after_marker,
}
use msos_autobuilder.ServiceErrors.Supersession.{
  IsLater, IsPublication, IsGateStatus, is_of_revision, IsTerminal, published, gated, revised,
}

module _ (python : Builtins) where
  require_later-IsLater :
      (value : Json) (recorded : ℕ)
      → require_later (parse_utc python value) recorded ≡ ok tt
      → IsLater python value recorded
  require_later-IsLater value recorded h = by_time (parse_utc python value) refl h
    where
      by_time :
          (found : Option ℕ)
          → parse_utc python value ≡ found
          → require_later found recorded ≡ ok tt
          → IsLater python value recorded
      by_time none e k = absurd cc
      by_time (some at) e k = (at, e, ground arith)

  pub job_entry-object :
      (job_id : Text) (ledger entry : Fields)
      → job_entry job_id ledger ≡ ok entry
      → get job_id ledger ≡ object entry
  job_entry-object job_id ledger entry h = by_value (get job_id ledger) refl h
    where
      by_value :
          (v : Json)
          → get job_id ledger ≡ v
          → elim v [ object e ↦ ok e | _ ↦ err no_entry ] ≡ ok entry
          → get job_id ledger ≡ object entry
      by_value (object e) is k = let same : object e ≡ object entry = cc in is ∙ same
      by_value null is k = absurd cc
      by_value (string t) is k = absurd cc
      by_value (array t) is k = absurd cc
      by_value (integer t) is k = absurd cc
      by_value (boolean t) is k = absurd cc

  string_where :
      (p : Text → Bool) (v : Json)
      → is_string_where p v ≡ true
      → (t : Text) × (v ≡ string t) × (p t ≡ true)
  string_where p (string t) h = (t, refl, h)
  string_where p null h = absurd cc
  string_where p (object e) h = absurd cc
  string_where p (array t) h = absurd cc
  string_where p (integer t) h = absurd cc
  string_where p (boolean t) h = absurd cc

  require_valid-All :
      (checks : List (Text × (Json → Bool))) (entry : Fields)
      → require_valid checks entry ≡ ok tt
      → All (λ c. c.1 (get c.0 entry) ≡ true) checks
  require_valid-All [] entry h = tt
  require_valid-All ((key, validator) ∷ rest) entry h =
      (ground arith, require_valid-All rest entry (ground arith))

  pub require_valid-IsPublication :
      (entry : Fields)
      → require_valid (publication python) entry ≡ ok tt
      → IsPublication python entry
  require_valid-IsPublication entry h =
      let (a, (b, (c, (d, (e, (f, (g, done))))))) =
        require_valid-All (publication python) entry h in
      record {
        gate_report = a;
        source_report = b;
        branch = string_where _ _ c;
        commit = d;
        pr_number = e;
        pr_url = string_where _ _ f;
        results_commit = g;
      }

  publisher_terminal_after-IsTerminal :
      (ledger : Fields) (job_id : Text) (recorded : ℕ)
      → publisher_terminal_after python ledger job_id recorded ≡ ok tt
      → IsTerminal python (codes "publisher") ledger job_id recorded
  unfolding publisher_terminal_after
  publisher_terminal_after-IsTerminal ledger job_id recorded h =
      let (entry, a, h1) = >>=-eq-ok (job_entry job_id ledger) _ h in
      let (done, b, h2) = >>=-eq-ok (require_valid (publication python) entry) _ h1 in
      published entry refl (job_entry-object job_id ledger entry a)
        (require_valid-IsPublication entry b) (require_later-IsLater _ recorded h2)

  gate_status :
      (v : Json)
      → is_string_where
          (λ s. text_mem s (codes "passed" ∷ codes "failed" ∷ codes "unvalidated" ∷ []))
          v
        ≡ true
      → IsGateStatus v
  unfolding text_mem
  gate_status v h =
      let (t, is, m) = string_where _ v h in
      elim (Bool-cases (codes "passed" == t)) [
        | inl a ↦ inl (subst (λ u. v ≡ string u) (sym ((==_iff _ t).0 a)) is)
        | inr a ↦ elim (Bool-cases (codes "failed" == t)) [
          | inl b ↦ inr (inl (subst (λ u. v ≡ string u) (sym ((==_iff _ t).0 b)) is))
          | inr b ↦ inr (
              inr (
                subst (λ u. v ≡ string u) (sym ((==_iff (codes "unvalidated") t).0 (ground arith)))
                  is))
        ]
      ]

  gate_terminal_after-IsTerminal :
      (ledger : Fields) (job_id : Text) (recorded : ℕ)
      → gate_terminal_after python ledger job_id recorded ≡ ok tt
      → IsTerminal python (codes "gate") ledger job_id recorded
  unfolding gate_terminal_after
  gate_terminal_after-IsTerminal ledger job_id recorded h =
      let (entry, a, h1) = >>=-eq-ok (job_entry job_id ledger) _ h in
      let (b, h2) =
        raise_if-not->>-eq-ok (is_sha256 python (get (codes "source_report_sha256") entry))
          (entry_invalid (codes "source_report_sha256")) _ h1 in
      let (c, h3) = raise_if-not->>-eq-ok _ _ _ h2 in
      let (d, h4) = raise_if-not->>-eq-ok _ _ _ h3 in
      gated entry refl (job_entry-object job_id ledger entry a) b c (gate_status _ d)
        (require_later-IsLater _ recorded h4)

  keep-agree :
      (p q : Text × Json → Bool) (xs : List (Text × Json))
      → ((x : Text × Json) → p x ≡ q x)
      → keep p xs ≡ keep q xs
  unfolding keep
  keep-agree p q [] h = refl
  keep-agree p q (x ∷ xs) h = ground (arith, h x, keep-agree p q xs h)

  revision_matches-agree :
      (job_id : Text) (x : Text × Json) → is_of_revision job_id x ≡ revision_matches python job_id x
  revision_matches-agree job_id (key, object value) = refl
  revision_matches-agree job_id (key, null) = refl
  revision_matches-agree job_id (key, string t) = refl
  revision_matches-agree job_id (key, array t) = refl
  revision_matches-agree job_id (key, integer t) = refl
  revision_matches-agree job_id (key, boolean t) = refl

  sole-one :
      (xs : List (Text × Json)) (entry : Fields)
      → sole python xs ≡ ok entry
      → (key : Text) × (xs ≡ (key, object entry) ∷ [])
  sole-one [] entry h = absurd cc
  sole-one ((key, object value) ∷ []) entry h =
      (key, (let same : value ≡ entry = cc in rw same refl))
  sole-one ((key, object value) ∷ y ∷ xs) entry h = absurd cc
  sole-one ((key, null) ∷ xs) entry h = absurd cc
  sole-one ((key, string t) ∷ xs) entry h = absurd cc
  sole-one ((key, array t) ∷ xs) entry h = absurd cc
  sole-one ((key, integer t) ∷ xs) entry h = absurd cc
  sole-one ((key, boolean t) ∷ xs) entry h = absurd cc

  revision_terminal_after-IsTerminal :
      (ledger : Fields) (job_id : Text) (recorded : ℕ)
      → revision_terminal_after python ledger job_id recorded ≡ ok tt
      → IsTerminal python (codes "revision") ledger job_id recorded
  unfolding revision_terminal_after
  revision_terminal_after-IsTerminal ledger job_id recorded h =
      let (entry, a, h1) =
        >>=-eq-ok (sole python (keep (revision_matches python job_id) (entries ledger))) _ h in
      let (b, h2) =
        raise_if-not->>-eq-ok (is_sha256 python (get (codes "gate_report_sha256") entry))
          (entry_invalid (codes "gate_report_sha256")) _ h1 in
      let (c, h3) = raise_if-not->>-eq-ok _ _ _ h2 in
      let (d, h4) = raise_if-not->>-eq-ok _ _ _ h3 in
      let (name, e, f) = string_where _ _ c in
      let (key, g) = sole-one _ entry a in
      revised key name entry refl
        (keep-agree (is_of_revision job_id) (revision_matches python job_id) (entries ledger)
            (revision_matches-agree job_id)
          ∙ g)
        b e (ground arith) d (require_later-IsLater _ recorded h4)

  pub terminal_ledger_after_marker-IsTerminal :
      (service : Text) (ledger : Fields) (job_id : Text) (recorded : ℕ)
      → terminal_ledger_after_marker python service ledger job_id recorded ≡ ok tt
      → IsTerminal python service ledger job_id recorded
  unfolding terminal_ledger_after_marker
  terminal_ledger_after_marker-IsTerminal service ledger job_id recorded h =
      elim (Bool-cases (service == codes "publisher")) [
        | inl a ↦
            subst (λ s. IsTerminal python s ledger job_id recorded) (sym ((==_iff service _).0 a))
              (publisher_terminal_after-IsTerminal ledger job_id recorded (rw a at h))
        | inr b ↦ elim (Bool-cases (service == codes "gate")) [
          | inl a ↦
              subst (λ s. IsTerminal python s ledger job_id recorded) (sym ((==_iff service _).0 a))
                (gate_terminal_after-IsTerminal ledger job_id recorded (rw (b, a) at h))
          | inr c ↦ elim (Bool-cases (service == codes "revision")) [
            | inl a ↦
                subst (λ s. IsTerminal python s ledger job_id recorded)
                  (sym ((==_iff service _).0 a))
                  (revision_terminal_after-IsTerminal ledger job_id recorded (rw (b, c, a) at h))
            | inr d ↦ absurd (ground arith)
          ]
        ]
      ]
