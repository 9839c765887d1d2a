-- ===== src/ServiceErrors/Verdicts.antt =====
-- What each verdict of `evaluate_service_error_marker` of src/msos_autobuilder/service_error_lifecycle.py
-- rests on.
use msos_autobuilder.Prelude.{◌≡◌, true, false, none, some, Text, codes, ltb, ok, ◌⊎◌, ◌==◌}
use msos_autobuilder.Json.{Fields, get, has, json_eq}
use msos_autobuilder.ServiceErrors.Records.{
  Builtins, ServiceErrorSpec, load_json_mapping, of_option,
}
use msos_autobuilder.ServiceErrors.Evaluate.{
  StateFiles, Supersession, later_same_generation_service_success,
  later_authoritative_terminal_job_evidence, legacy_publisher_success_and_coherent_publication,
  later_healthy_exact_release_service_start, Context,
}
use msos_autobuilder.ServiceErrors.Supersession.{
  IsSuccess, IsOfGeneration, IsOfJob, IsTerminal, IsRecovered, IsCurrent,
}

module _ (python : Builtins) (spec : ServiceErrorSpec) where
  -- What stands behind each way of being superseded.
  abbrev pub IsBacked : Supersession → StateFiles → Context → Type 0
  IsBacked later_same_generation_service_success files c =
      (raw : Fields) × (load_json_mapping files.success ≡ ok raw)
      × IsSuccess python raw spec.service c.recorded c.current_release
      × IsOfGeneration c.current_generation raw
      × IsOfJob c.job_id raw
      × ((spec.service == codes "publisher" ≡ false)
          ⊎ (c.job_id ≡ none)
          ⊎ IsCurrent c.raw c.current_release c.current_generation)
  IsBacked later_authoritative_terminal_job_evidence files c =
      (ledger : Fields) × (job_id : Text) × (load_json_mapping files.ledger ≡ ok ledger)
      × (c.job_id ≡ some job_id)
      × IsTerminal python spec.service ledger job_id c.recorded
  IsBacked legacy_publisher_success_and_coherent_publication files c =
      (ledger : Fields) × (job_id : Text) × (load_json_mapping files.ledger ≡ ok ledger)
      × (c.job_id ≡ some job_id)
      × (spec.service == codes "publisher" ≡ true)
      × IsRecovered python files.success ledger c.raw c.witness c.recorded c.current_generation
          c.current_release job_id
  IsBacked later_healthy_exact_release_service_start files c =
      (ledger : Fields) × (load_json_mapping files.ledger ≡ ok ledger)
      × (ltb c.recorded c.witness_started ≡ true)
      × ((c.job_id ≡ none)
          ⊎ ((job_id : Text) × (c.job_id ≡ some job_id)
              × (spec.service == codes "publisher" ≡ true)
              × (has job_id ledger ≡ false)
              × (json_eq (get (codes "generation_id") c.raw) (of_option c.current_generation)
                  ≡ false)))
