-- ===== src/UpdateWaiter/Tests.antt =====
-- Checks that succeed from a tick on, for src/msos_autobuilder/update_check_waiter.py.
use msos_autobuilder.Prelude.{
  ℕ, ◌+◌, ◌≡◌, refl, leb, Text, codes, if◌then◌else◌, Result, ok, err, arith,
}
use msos_autobuilder.UpdateWaiter.{verified, timed_out, bad_arguments, wait_for_update_checks}
use msos_autobuilder.UpdateWaiter.Ending.{Explains, wait_for_update_checks_lem}

abbrev verify : ℕ → Result Text (Unit {0})
verify t = if leb 25 t then ok tt else err (codes "pending")

abbrev elapsed : ℕ → ℕ
elapsed t = 1

in_time : wait_for_update_checks verify elapsed 30 10 0 ≡ verified
unfolding wait_for_update_checks
in_time = refl

too_late : wait_for_update_checks verify elapsed 20 10 0 ≡ timed_out (codes "pending")
unfolding wait_for_update_checks
too_late = refl

no_interval : wait_for_update_checks verify elapsed 20 0 0 ≡ bad_arguments
unfolding wait_for_update_checks
no_interval = refl

wait_for_update_checks_lem_example :
    Explains verify elapsed 0 (0 + 30) (wait_for_update_checks verify elapsed 30 10 0)
wait_for_update_checks_lem_example =
    wait_for_update_checks_lem verify elapsed 30 10 0 (omega arith) (omega arith)
