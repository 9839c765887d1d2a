-- ===== src/UpdateWaiter/Ending.antt =====
-- That the loop of src/msos_autobuilder/update_check_waiter.py ends, and what its end says.
use msos_autobuilder.Prelude.{
  ℕ, zero, suc, ◌+◌, ◌-◌, ◌<◌, ◌≤◌, ◌≡◌, refl, false, ◌||◌, min, leb, nat_eq, Bool-cases, inl, inr,
  Result, ok, err, arith,
}
use msos_autobuilder.UpdateWaiter.{
  WaitOutcome, verified, bad_arguments, out_of_fuel, timed_out, after_check, poll_until,
  wait_for_update_checks,
}

module _ {E : Type 0} (verify : ℕ → Result E (Unit {0})) (elapsed : ℕ → ℕ) where
  -- What an outcome says about the verifier.
  abbrev pub Explains : ℕ → ℕ → WaitOutcome E → Type 0
  Explains start deadline verified = (t : ℕ) × (start ≤ t) × (verify t ≡ ok tt)
  Explains start deadline (timed_out e) =
      (t : ℕ) × (start ≤ t) × (verify t ≡ err e) × (deadline ≤ t + elapsed t)
  Explains start deadline bad_arguments = ⊥
  Explains start deadline out_of_fuel = ⊥

  Explains-after_check :
      (r : Result E (Unit {0})) (start deadline now : ℕ) (next : WaitOutcome E)
      → verify now ≡ r
      → start ≤ now
      → (now + elapsed now < deadline → Explains start deadline next)
      → Explains start deadline (after_check verify elapsed r deadline (now + elapsed now) next)
  Explains-after_check (ok done) start deadline now next v s k = (now, s, v)
  Explains-after_check (err e) start deadline now next v s k =
      elim (Bool-cases (leb deadline (now + elapsed now))) [
        | inl late ↦ rw late (now, s, v, grind arith)
        | inr early ↦ rw early (k (grind arith))
      ]

  Explains-poll_until :
      (fuel poll_seconds deadline start now : ℕ)
      → 0 < poll_seconds
      → start ≤ now
      → deadline - now < fuel
      → Explains start deadline (poll_until verify elapsed fuel poll_seconds deadline now)
  unfolding poll_until
  Explains-poll_until zero poll_seconds deadline start now p s f = absurd (omega (arith, f))
  Explains-poll_until (suc fuel) poll_seconds deadline start now p s f =
      let after = now + elapsed now in
      Explains-after_check (verify now) start deadline now _ refl s λ early.
        Explains-poll_until fuel poll_seconds deadline start
          (after + min poll_seconds (deadline - after)) p (omega arith) (omega arith)

  -- With a positive timeout and a positive interval the wait comes to an end: it returns after a check
  -- that did not raise, or times out with the error of a check that ended at the deadline or later.
  pub wait_for_update_checks_lem :
      (timeout_seconds poll_seconds start : ℕ)
      → 0 < timeout_seconds
      → 0 < poll_seconds
      → Explains start
          (start + timeout_seconds)
          (wait_for_update_checks verify elapsed timeout_seconds poll_seconds start)
  unfolding wait_for_update_checks
  wait_for_update_checks_lem timeout_seconds poll_seconds start t p =
      let given : (nat_eq timeout_seconds 0 || nat_eq poll_seconds 0) ≡ false = grind arith in
      rw given (
        Explains-poll_until (suc timeout_seconds) poll_seconds (start + timeout_seconds) start start
          p (omega arith) (omega arith))
