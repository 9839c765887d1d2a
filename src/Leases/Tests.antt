-- ===== src/Leases/Tests.antt =====
-- A short life of one lane, and the theorems at concrete inputs.
use msos_autobuilder.Prelude.{
  ◌&&◌, ltb, ◌≡◌, refl, ◌<◌, true, false, ◌+◌, some, [], ◌∷◌, List, Text, codes, ok, err, is_ok,
  ◌==◌, lookup, insert, remove, all, arith,
}
use msos_autobuilder.Text.{is_id_char}
use msos_autobuilder.Leases.{
  LeaseRecord, readable, aware, naive, FileLeaseStore, LeaseError, validate_id, acquire, renew,
  release, get,
}
use msos_autobuilder.Leases.Exclusion.{
  is_id, is_unlocked, is_available, is_ok-acquire, locks_restored,
}
use msos_autobuilder.Leases.Traces.{
  Operation, acquiring, releasing, run, step, Holds, lease_exclusive, renew_lem,
  acquire_after_release, step_error,
}

abbrev empty : FileLeaseStore
empty = record { leases = []; locks = [] }

abbrev lane : Text
lane = codes "lane-1"

abbrev ada : Text
ada = codes "ada"

abbrev bob : Text
bob = codes "bob"

abbrev first : LeaseRecord
first = record {
  lane_id = lane;
  owner_id = ada;
  acquired_at = 10;
  heartbeat_at = 10;
  expires_at = 40;
}

abbrev held : FileLeaseStore
held = record { leases = (lane, readable first) ∷ []; locks = [] }

program : Unit {0}
unfolding acquire renew release get validate_id is_id_char all lookup insert remove ◌==◌
program = tt

acquire-first : acquire lane ada 30 (aware 10) empty ≡ (ok first, held)
unfolding program
acquire-first = refl

acquire_rival : acquire lane bob 30 (aware 39) held ≡ (err (LeaseError.leased_by lane ada 40), held)
unfolding program
acquire_rival = refl

acquire_naive : (acquire lane bob 30 (naive 39) held).0 ≡ err LeaseError.timestamp_not_aware
unfolding program
acquire_naive = refl

acquire_late : is_ok (acquire lane bob 30 (aware 40) held).0 ≡ true
unfolding program
acquire_late = refl

invalid_lane :
    (acquire (codes "a/b") bob 30 (aware 40) held).0 ≡ err (LeaseError.invalid_id (codes "a/b"))
unfolding program
invalid_lane = refl

get-held : get lane held ≡ ok (some first)
unfolding program
get-held = refl

step_error_example : (step (acquiring lane bob 30 39) held).0 ≡ held
unfolding program step
step_error_example = step_error (acquiring lane bob 30 39) held refl

abbrev quarrel : List Operation
quarrel = acquiring lane bob 30 20 ∷ releasing lane bob ∷ []

ada_not_bob : ada ≡ bob → ⊥
ada_not_bob e = ground (arith, e)

lease_exclusive_example :
    Holds lane first (run quarrel (acquire lane ada 30 (aware 10) empty).1)
    × (is_ok
          (acquire lane bob 30 (aware 39) (run quarrel (acquire lane ada 30 (aware 10) empty).1)).0
        ≡ false)
unfolding program
lease_exclusive_example =
    lease_exclusive lane ada 30 10 empty first quarrel bob 30 39 refl
      ((ada_not_bob, omega arith), (ada_not_bob, tt)) (omega arith)

abbrev renewed : LeaseRecord
renewed = record first { heartbeat_at = 20; expires_at = 50 }

renew_lem_example :
    (old : LeaseRecord) × Holds lane old held
    × (old.owner_id ≡ ada)
    × (20 < old.expires_at)
    × Holds lane renewed (renew lane ada 30 (aware 20) held).1
    × (renewed ≡ record {
      lane_id = lane;
      owner_id = ada;
      acquired_at = old.acquired_at;
      heartbeat_at = 20;
      expires_at = 20 + 30;
    })
unfolding program
renew_lem_example = renew_lem lane ada 30 20 held renewed refl

acquire_after_release_example :
    is_ok (acquire lane bob 5 (aware 20) (release lane ada held).1).0 ≡ true
unfolding program
acquire_after_release_example = acquire_after_release lane ada bob 5 20 held refl refl (omega arith)

is_ok-acquire_example :
    is_ok (acquire lane bob 30 (aware 39) held).0
    ≡ (is_id bob && ltb 0 30 && is_id lane && is_unlocked lane held && is_available lane 39 held)
is_ok-acquire_example = is_ok-acquire lane bob 30 39 held

locks_restored_example :
    ((acquire lane bob 30 (aware 39) held).1.locks ≡ held.locks)
    × ((renew lane bob 30 (aware 39) held).1.locks ≡ held.locks)
    × ((release lane bob held).1.locks ≡ held.locks)
locks_restored_example = locks_restored lane bob 30 (aware 39) held
