-- ===== src/ServiceErrors/Recovered.antt =====
-- What the legacy recovery of a publisher in src/msos_autobuilder/service_error_lifecycle.py establishes.
use msos_autobuilder.Prelude.{
  ℕ, ◌≡◌, refl, Bool, true, false, not, ◌&&◌, Option, some, List, [], ◌∷◌, Text, codes, leb, All,
  ok, err, ◌⊎◌, inl, inr, arith, >>=-eq-ok, raise_if-eq-ok, raise_if-not-eq-ok, raise_if->>-eq-ok,
  raise_if-not->>-eq-ok, Bool-cases,
}
use msos_autobuilder.Json.{
  Json, null, boolean, integer, array, object, string, Fields, no_items, item, get, has, json_eq,
  is_none,
}
use msos_autobuilder.ServiceErrors.Records.{
  Builtins, File, load_json_mapping, parse_utc, no_generation, history_incomplete,
  current_generation_unresolved, marker_not_older, no_terminal_time, success_missing,
  success_other_generation, terminal_evidence_not_mapping, entry_invalid, pr_state_incompatible,
}
use msos_autobuilder.ServiceErrors.Ledgers.{
  job_entry, require_valid, publication, publisher_ledger_identity_is_coherent, require_equal,
  require_same_identity, identity_keys,
}
use msos_autobuilder.ServiceErrors.Success.{
  require_some, require_success, no_raw, string_collection_contains, require_published_before,
  require_older_generation, require_recovery, publisher_legacy_recovery_supersedes,
}
use msos_autobuilder.ServiceErrors.Supersession.{
  IsAmong, field_of, IsOlder, IsSameIdentity, IsCoherent, IsRecovery, IsRecovered,
}
use msos_autobuilder.ServiceErrors.Asked.{some-require_some, require_success-IsSuccess}
use msos_autobuilder.ServiceErrors.Ended.{job_entry-object, require_valid-IsPublication}

string_collection-IsAmong :
    (value : Json) (job_id : Text)
    → string_collection_contains value job_id ≡ ok tt
    → IsAmong job_id value
unfolding string_collection_contains
string_collection-IsAmong (array no_items) job_id h = absurd cc
string_collection-IsAmong (array (item x xs)) job_id h =
    let (a, h1) = raise_if-not->>-eq-ok _ _ _ h in raise_if-not-eq-ok _ _ h1
string_collection-IsAmong null job_id h = absurd cc
string_collection-IsAmong (string t) job_id h = absurd cc
string_collection-IsAmong (object t) job_id h = absurd cc
string_collection-IsAmong (integer t) job_id h = absurd cc
string_collection-IsAmong (boolean t) job_id h = absurd cc

require_equal-All :
    (keys : List Text) (associated entry : Fields)
    → require_equal keys associated entry ≡ ok tt
    → All
        (λ key.
          (has key associated ≡ false) ⊎ (json_eq (get key associated) (get key entry) ≡ true))
        keys
require_equal-All [] associated entry h = tt
require_equal-All (key ∷ keys) associated entry h = (
  elim (Bool-cases (has key associated)) [ inl a ↦ inr (ground arith) | inr b ↦ inl b ],
  require_equal-All keys associated entry (ground arith),
)

require_same_identity-IsSameIdentity :
    (value : Json) (entry : Fields)
    → require_same_identity value entry ≡ ok tt
    → IsSameIdentity value entry
unfolding require_same_identity
require_same_identity-IsSameIdentity (object associated) entry h =
    require_equal-All identity_keys associated entry h
require_same_identity-IsSameIdentity null entry h = tt
require_same_identity-IsSameIdentity (string t) entry h = tt
require_same_identity-IsSameIdentity (array t) entry h = tt
require_same_identity-IsSameIdentity (integer t) entry h = tt
require_same_identity-IsSameIdentity (boolean t) entry h = tt

-- A guard on a field that need not be there.
optional :
    (is_there fits : Bool) → (is_there && not fits) ≡ false → (is_there ≡ false) ⊎ (fits ≡ true)
optional true fits h = inr (ground arith)
optional false fits h = inl refl

module _ (python : Builtins) where
  require_older_generation-IsOlder :
      (marker witness : Fields) (generation : Option Text) (release : Json) (current : Text)
      → require_older_generation python marker witness generation release ≡ ok current
      → (generation ≡ some current) × IsOlder python marker witness current release
  unfolding require_older_generation
  require_older_generation-IsOlder marker witness generation release current h =
      let (g, is, h1) = >>=-eq-ok (require_some generation no_generation) _ h in
      let (a, h2) =
        raise_if->>-eq-ok (is_none (get (codes "release_commit") marker)) history_incomplete _ h1 in
      let (started, b, h3) =
        >>=-eq-ok
          (require_some (parse_utc python (get (codes "witness_started_at") marker))
            history_incomplete)
          _ h2 in
      let (c, h4) =
        raise_if->>-eq-ok (is_none (get (codes "generation_id") marker)) history_incomplete _ h3 in
      let (d, h5) =
        raise_if->>-eq-ok
          (json_eq (get (codes "release_commit") marker) release
            && json_eq (get (codes "generation_id") marker) (string g))
          current_generation_unresolved _ h4 in
      let (at, e, h6) =
        >>=-eq-ok
          (require_some (parse_utc python (get (codes "started_at") witness)) marker_not_older) _
          h5 in
      let (f, h7) = raise_if->>-eq-ok (leb at started) marker_not_older _ h6 in
      let same : g ≡ current = cc in
      (
        rw (← same) (some-require_some _ _ _ is),
        rw (← same) (record {
          has_release = a;
          has_generation = c;
          differs = elim (Bool-cases (json_eq (get (codes "release_commit") marker) release)) [
            | inl t ↦ inr (ground arith)
            | inr n ↦ inl n
          ];
          started = started;
          is_started = some-require_some _ _ _ b;
          started_later = (at, some-require_some _ _ _ e, ground arith);
        }),
      )

  published_before-not_after :
      (value : Json) (recorded : ℕ)
      → require_published_before python value recorded ≡ ok tt
      → (is_none value ≡ true)
        ⊎ ((at : ℕ) × (parse_utc python value ≡ some at) × (leb at recorded ≡ true))
  unfolding require_published_before
  published_before-not_after value recorded h = elim (Bool-cases (is_none value)) [
    | inl a ↦ inl a
    | inr b ↦
        let (at, c, h1) =
          >>=-eq-ok (require_some (parse_utc python value) no_terminal_time) _ (rw b at h) in
        inr (at, some-require_some _ _ _ c, (let d = raise_if-eq-ok _ _ h1 in ground arith))
  ]

  publisher_ledger_identity_is_coherent-IsCoherent :
      (entry marker : Fields) (recorded : ℕ)
      → publisher_ledger_identity_is_coherent python entry marker ≡ ok tt
      → require_published_before python (get (codes "published_at") entry) recorded ≡ ok tt
      → IsCoherent python entry marker recorded
  unfolding publisher_ledger_identity_is_coherent
  publisher_ledger_identity_is_coherent-IsCoherent entry marker recorded h before =
      let (u, a, h1) = >>=-eq-ok (require_valid (publication python) entry) _ h in
      let (b, h2) =
        raise_if->>-eq-ok
          (has (codes "status") entry
            && not (json_eq (get (codes "status") entry) (string (codes "published-draft"))))
          (entry_invalid (codes "status")) _ h1 in
      let (v, c, h3) =
        >>=-eq-ok (require_same_identity (get (codes "associated") marker) entry) _ h2 in
      let (d, h4) =
        raise_if->>-eq-ok
          (has (codes "pr_state") entry
            && not (json_eq (get (codes "pr_state") entry) (string (codes "open"))))
          pr_state_incompatible _ h3 in
      record {
        is_publication = require_valid-IsPublication python entry a;
        status = optional _ _ b;
        identity = require_same_identity-IsSameIdentity _ entry c;
        pr_state = optional _ _ d;
        draft = optional _ _ (raise_if-eq-ok _ _ h4);
        not_after = published_before-not_after _ recorded before;
      }

  verified_jobs-IsAmong :
      (value : Json) (job_id : Text)
      → (elim value [
        | object evidence ↦ string_collection_contains (get (codes "verified_jobs") evidence) job_id
        | _ ↦ err terminal_evidence_not_mapping
      ])
        ≡ ok tt
      → IsAmong job_id (field_of (codes "verified_jobs") value)
  verified_jobs-IsAmong (object evidence) job_id h = string_collection-IsAmong _ job_id h
  verified_jobs-IsAmong null job_id h = absurd cc
  verified_jobs-IsAmong (string t) job_id h = absurd cc
  verified_jobs-IsAmong (array t) job_id h = absurd cc
  verified_jobs-IsAmong (integer t) job_id h = absurd cc
  verified_jobs-IsAmong (boolean t) job_id h = absurd cc

  require_recovery-IsRecovery :
      (file : File) (recorded : ℕ) (release : Json) (current job_id : Text)
      → require_recovery python file recorded release current job_id ≡ ok tt
      → IsRecovery python file recorded release current job_id
  unfolding require_recovery
  require_recovery-IsRecovery file recorded release current job_id h =
      let (raw, a, h1) = >>=-eq-ok (load_json_mapping file) _ h in
      let (b, h2) = raise_if->>-eq-ok (no_raw raw) success_missing _ h1 in
      let (u, c, h3) =
        >>=-eq-ok (require_success python raw (codes "publisher") recorded release) _ h2 in
      let (d, h4) =
        raise_if-not->>-eq-ok (json_eq (get (codes "generation_id") raw) (string current))
          success_other_generation _ h3 in
      let (v, e, h5) =
        >>=-eq-ok (string_collection_contains (get (codes "associated_jobs") raw) job_id) _ h4 in
      record {
        raw = raw;
        is_raw = a;
        success = require_success-IsSuccess python raw (codes "publisher") recorded release c;
        generation = d;
        associated = string_collection-IsAmong _ job_id e;
        verified = verified_jobs-IsAmong _ job_id h5;
      }

  pub legacy-IsRecovered :
      (ledger : Fields) (file : File) (marker : Fields) (recorded : ℕ) (witness : Fields)
      (generation : Option Text) (release : Json) (job_id : Text)
      → publisher_legacy_recovery_supersedes python ledger file marker recorded witness generation
          release job_id
        ≡ ok tt
      → IsRecovered python file ledger marker witness recorded generation release job_id
  unfolding publisher_legacy_recovery_supersedes
  legacy-IsRecovered ledger file marker recorded witness generation release job_id h =
      let (current, a, h1) =
        >>=-eq-ok (require_older_generation python marker witness generation release) _ h in
      let (entry, b, h2) = >>=-eq-ok (job_entry job_id ledger) _ h1 in
      let (u, c, h3) =
        >>=-eq-ok (require_published_before python (get (codes "published_at") entry) recorded) _
          h2 in
      let (v, d, h4) = >>=-eq-ok (publisher_ledger_identity_is_coherent python entry marker) _ h3 in
      let (is, older) =
        require_older_generation-IsOlder marker witness generation release current a in
      record {
        current = current;
        is_current = is;
        older = older;
        entry = entry;
        is_entry = job_entry-object python job_id ledger entry b;
        coherent = publisher_ledger_identity_is_coherent-IsCoherent entry marker recorded d c;
        recovery = require_recovery-IsRecovery file recorded release current job_id h4;
      }
