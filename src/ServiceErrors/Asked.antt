-- ===== src/ServiceErrors/Asked.antt =====
-- What the check of a success in src/msos_autobuilder/service_error_lifecycle.py establishes when it
-- passes.
use msos_autobuilder.Prelude.{
  ℕ, ◌≡◌, true, false, not, ◌&&◌, Option, none, some, Text, codes, leb, ok, err, inl, inr, arith,
  >>=-eq-ok, raise_if-eq-ok, raise_if-not-eq-ok, raise_if->>-eq-ok, raise_if-not->>-eq-ok, map_err,
  Bool-cases, Result,
}
use msos_autobuilder.Text.{is_empty}
use msos_autobuilder.Json.{
  Json, null, boolean, integer, array, object, string, Fields, get, json_eq,
}
use msos_autobuilder.ServiceErrors.Records.{
  Builtins, File, Reason, load_json_mapping, parse_utc, success_no_finished_at, success_not_later,
  of_option, success_other_generation, names_job, listed, associated_matches,
}
use msos_autobuilder.ServiceErrors.Success.{
  require_some, require_success, success_supersedes, no_raw, is_set, names_other_job,
}
use msos_autobuilder.ServiceErrors.Supersession.{
  IsSuccess, IsOfGeneration, IsOfJob, IsAmong, field_of,
}

pub some-require_some :
    {A : Type 0} (found : Option A) (reason : Reason) (a : A)
    → require_some found reason ≡ ok a
    → found ≡ some a
some-require_some none reason a h = cc
some-require_some (some b) reason a h = cc

ok-map_err : {E F A : Type 0} (f : E → F) (r : Result E A) (a : A) → map_err f r ≡ ok a → r ≡ ok a
ok-map_err f (ok b) a h = cc
ok-map_err f (err e) a h = cc

generation-IsOfGeneration :
    (generation : Option Text) (raw : Fields)
    → (is_set generation && not (json_eq (get (codes "generation_id") raw) (of_option generation)))
      ≡ false
    → IsOfGeneration generation raw
generation-IsOfGeneration none raw h = tt
generation-IsOfGeneration (some g) raw h = elim (Bool-cases (is_empty g)) [
  | inl e ↦ inl e
  | inr f ↦ inr (ground arith)
]

names_job-field :
    (job_id : Text) (v : Json)
    → names_job job_id v ≡ true
    → json_eq (field_of (codes "job_id") v) (string job_id) ≡ true
names_job-field job_id (object associated) h = h
names_job-field job_id null h = absurd cc
names_job-field job_id (string t) h = absurd cc
names_job-field job_id (array t) h = absurd cc
names_job-field job_id (integer t) h = absurd cc
names_job-field job_id (boolean t) h = absurd cc

listed-IsAmong : (job_id : Text) (v : Json) → listed job_id v ≡ true → IsAmong job_id v
listed-IsAmong job_id (array items) h = h
listed-IsAmong job_id null h = absurd cc
listed-IsAmong job_id (string t) h = absurd cc
listed-IsAmong job_id (object t) h = absurd cc
listed-IsAmong job_id (integer t) h = absurd cc
listed-IsAmong job_id (boolean t) h = absurd cc

names-IsOfJob :
    (job_id : Option Text) (raw : Fields) → names_other_job job_id raw ≡ false → IsOfJob job_id raw
unfolding associated_matches
names-IsOfJob none raw h = tt
names-IsOfJob (some job_id) raw h =
    elim (Bool-cases (names_job job_id (get (codes "associated") raw))) [
      | inl t ↦ inl (names_job-field job_id _ t)
      | inr f ↦ inr (listed-IsAmong job_id (get (codes "associated_jobs") raw) (ground arith))
    ]

module _ (python : Builtins) where
  pub require_success-IsSuccess :
      (raw : Fields) (service : Text) (recorded : ℕ) (release : Json)
      → require_success python raw service recorded release ≡ ok tt
      → IsSuccess python raw service recorded release
  unfolding require_success
  require_success-IsSuccess raw service recorded release h =
      let (a, h1) = raise_if-not->>-eq-ok _ _ _ h in
      let (b, h2) = raise_if-not->>-eq-ok _ _ _ h1 in
      let (at, c, h3) =
        >>=-eq-ok
          (require_some (parse_utc python (get (codes "finished_at") raw)) success_no_finished_at) _
          h2 in
      let (d, h4) = raise_if->>-eq-ok (leb at recorded) success_not_later _ h3 in
      record {
        of_service = a;
        succeeded = b;
        is_later = (at, some-require_some _ _ _ c, ground arith);
        of_release = raise_if-not-eq-ok _ _ h4;
      }

  pub success_supersedes-IsSuccess :
      (file : File) (service : Text) (recorded : ℕ) (generation : Option Text) (release : Json)
      (job_id : Option Text)
      → success_supersedes python file service recorded generation release job_id ≡ ok tt
      → (raw : Fields) × (load_json_mapping file ≡ ok raw)
        × IsSuccess python raw service recorded release
        × IsOfGeneration generation raw
        × IsOfJob job_id raw
  unfolding success_supersedes
  success_supersedes-IsSuccess file service recorded generation release job_id h =
      let (raw, a, h1) = >>=-eq-ok (map_err some (load_json_mapping file)) _ h in
      let (b, h2) = raise_if->>-eq-ok (no_raw raw) none _ h1 in
      let (done, c, h3) =
        >>=-eq-ok (map_err some (require_success python raw service recorded release)) _ h2 in
      let (d, h4) =
        raise_if->>-eq-ok
          (is_set generation
            && not (json_eq (get (codes "generation_id") raw) (of_option generation)))
          (some success_other_generation) _ h3 in
      (
        raw,
        ok-map_err _ _ _ a,
        require_success-IsSuccess raw service recorded release (ok-map_err _ _ _ c),
        generation-IsOfGeneration generation raw d,
        names-IsOfJob job_id raw (raise_if-eq-ok _ _ h4),
      )
