-- ===== src/ServiceErrors/Tests.antt =====
-- Runs of `evaluate_service_error_marker` of src/msos_autobuilder/service_error_lifecycle.py.
use msos_autobuilder.Prelude.{◌≡◌, refl, true, some, [], codes, ◌==◌, length}
use msos_autobuilder.Text.{is_space}
use msos_autobuilder.Json.{boolean, integer, string, object, Fields, no_fields, field}
use msos_autobuilder.ServiceErrors.Records.{
  Builtins, aware, missing, content, publisher_error_spec, gate_error_spec, no_witness, parse_utc,
  current_witness, generation_id, associated_job,
}
use msos_autobuilder.ServiceErrors.Evaluate.{
  StateFiles, later_healthy_exact_release_service_start, absent, superseded, active,
  evaluate_service_error_marker,
}

-- Times are as late as their texts are long.
abbrev builtins : Builtins
builtins = record { sha256 = λ t. t; fromisoformat = λ t. some (aware (length t)); repr = λ v. [] }

abbrev checks : Fields
checks =
    field (codes "services")
      (object (
        field (codes "gate")
          (object (
            field (codes "ok") (boolean true) (
              field (codes "started_at") (string (codes "2026")) (
                field (codes "release_commit") (string (codes "r1"))
                  (field (codes "pid") (integer 41) no_fields)))))
          no_fields))
      no_fields

abbrev old_marker : Fields
old_marker = field (codes "recorded_at") (string (codes "202")) no_fields

abbrev files : StateFiles
files = record { marker = content (object old_marker); ledger = missing; success = missing }

abbrev young_marker : Fields
young_marker = field (codes "recorded_at") (string (codes "202620")) no_fields

abbrev success_record : Fields
success_record = field (codes "service") (string (codes "gate")) (
    field (codes "result") (string (codes "success")) (
      field (codes "finished_at") (string (codes "20262026")) (
        field (codes "release_commit") (string (codes "r1"))
          (field (codes "generation_id") (string (codes "r1\n2026\n41\n")) no_fields))))

abbrev healed : StateFiles
healed = record {
  marker = content (object young_marker);
  ledger = missing;
  success = content (object success_record);
}

program : Unit {0}
unfolding evaluate_service_error_marker parse_utc current_witness generation_id associated_job
    is_space ◌==◌
program = tt

no_marker :
    evaluate_service_error_marker builtins gate_error_spec
      (record files { marker = missing })
      checks
    ≡ absent
unfolding program
no_marker = refl

old_marker_superseded :
    evaluate_service_error_marker builtins gate_error_spec files checks
    ≡ superseded later_healthy_exact_release_service_start
unfolding program
old_marker_superseded = refl

other_service_active :
    evaluate_service_error_marker builtins publisher_error_spec files checks ≡ active no_witness
unfolding program
other_service_active = refl
