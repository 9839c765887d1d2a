-- ===== src/UpdateWaiter.antt =====
-- `wait_for_update_checks` of src/msos_autobuilder/update_check_waiter.py. Times are ticks of the clock; the
-- verifier's answer and how long it takes are functions of the tick at which it is asked, and
-- `sleep` takes exactly the time it is given.
pub mod Ending
pub mod Tests
use msos_autobuilder.Prelude.{
  ℕ, zero, suc, ◌+◌, ◌-◌, ◌<◌, ◌≤◌, ◌≡◌, ◌≢◌, refl, Bool, true, false, ◌||◌, min, leb, nat_eq,
  Bool-cases, inl, inr, if◌then◌else◌, Result, ok, err, arith,
}

pub data WaitOutcome {ℓ} (E : Type ℓ) : Type ℓ where
  verified bad_arguments out_of_fuel : WaitOutcome E
  timed_out : E → WaitOutcome E

module _ {E : Type 0} (verify : ℕ → Result E (Unit {0})) (elapsed : ℕ → ℕ) where
  -- A check that raised is the last one when the deadline has passed. The verifier's errors are those
  -- that the source catches.
  abbrev pub after_check :
      Result E (Unit {0}) → (deadline after : ℕ) → WaitOutcome E → WaitOutcome E
  after_check (ok done) deadline after next = verified
  after_check (err e) deadline after next = if leb deadline after then timed_out e else next

  -- One turn of `while True` at the tick `now`. What is left when the verifier raised is `deadline - monotonic()`.
  unfoldable pub poll_until : (fuel poll_seconds deadline now : ℕ) → WaitOutcome E
  poll_until zero poll_seconds deadline now = out_of_fuel
  poll_until (suc fuel) poll_seconds deadline now =
      let after = now + elapsed now in
      let next =
        poll_until fuel poll_seconds deadline (after + min poll_seconds (deadline - after)) in
      after_check (verify now) deadline after next

  -- A turn that does not end the loop sleeps at least a tick, so one turn more than there are ticks is enough.
  unfoldable pub wait_for_update_checks : (timeout_seconds poll_seconds start : ℕ) → WaitOutcome E
  unfolding poll_until
  wait_for_update_checks timeout_seconds poll_seconds start =
      if nat_eq timeout_seconds 0 || nat_eq poll_seconds 0
      then bad_arguments
      else poll_until (suc timeout_seconds) poll_seconds (start + timeout_seconds) start
