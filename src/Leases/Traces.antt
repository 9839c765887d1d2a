-- ===== src/Leases/Traces.antt =====
-- Operations in any order, by any owners: while a lease lasts, only its owner changes it.
use msos_autobuilder.Prelude.{
  ℕ, ◌+◌, ◌<◌, ◌≡◌, ◌≢◌, refl, Bool, true, false, some, none, Option, List, [], ◌∷◌, Text, ==_iff,
  ==_refl, All, arith, lookup, lookup-insert, lookup-remove, ok, is_ok,
}
use msos_autobuilder.Leases.{
  LeaseRecord, LeaseFile, readable, unreadable, aware, FileLeaseStore, validate_id, acquire, renew,
  release,
}
use msos_autobuilder.Leases.Exclusion.{
  acquire_error, renew_error, release_error, is_ok-acquire, is_id, locks-release,
}

-- A call by one process: who calls, for which lane, and the clock where it is read.
pub data Operation : Type 0 where
  acquiring renewing : (lane owner : Text) (ttl now : ℕ) → Operation
  releasing : (lane owner : Text) → Operation

-- The store that a call leaves, and whether it returned.
unfoldable pub step : Operation → FileLeaseStore → FileLeaseStore × Bool
step (acquiring lane owner ttl now) store =
    let (result, after) = acquire lane owner ttl (aware now) store in (after, is_ok result)
step (renewing lane owner ttl now) store =
    let (result, after) = renew lane owner ttl (aware now) store in (after, is_ok result)
step (releasing lane owner) store =
    let (result, after) = release lane owner store in (after, is_ok result)

unfoldable pub run : List Operation → FileLeaseStore → FileLeaseStore
unfolding step
run [] store = store
run (operation ∷ operations) store = run operations (step operation store).0

-- An operation that raises leaves the whole store as it found it.
pub step_error :
    (operation : Operation) (store : FileLeaseStore)
    → (step operation store).1 ≡ false
    → (step operation store).0 ≡ store
unfolding step
step_error (acquiring lane owner ttl now) store h = acquire_error lane owner ttl (aware now) store h
step_error (renewing lane owner ttl now) store h = renew_error lane owner ttl (aware now) store h
step_error (releasing lane owner) store h = release_error lane owner 0 (aware 0) store h

-- The lane's file holds this record.
abbrev pub Holds : Text → LeaseRecord → FileLeaseStore → Type 0
Holds lane lease store = lookup lane store.leases ≡ some (readable lease)

-- A call by another owner, made before the lease ends.
abbrev pub IsForeign : LeaseRecord → Operation → Type 0
IsForeign lease (acquiring lane owner ttl now) = (lease.owner_id ≢ owner) × (now < lease.expires_at)
IsForeign lease (renewing lane owner ttl now) = (lease.owner_id ≢ owner) × (now < lease.expires_at)
IsForeign lease (releasing lane owner) = lease.owner_id ≢ owner

step-Holds :
    (lane : Text) (lease : LeaseRecord) (operation : Operation) (store : FileLeaseStore)
    → IsForeign lease operation
    → Holds lane lease store
    → Holds lane lease (step operation store).0
unfolding step acquire renew release
step-Holds lane lease (acquiring other owner ttl now) store f h =
    grind (arith, ==_iff other lane, lookup-insert)
step-Holds lane lease (renewing other owner ttl now) store f h =
    grind (arith, ==_iff other lane, ==_iff lease.owner_id owner, lookup-insert)
step-Holds lane lease (releasing other owner) store f h =
    ground
      (arith, ==_iff other lane, ==_iff lease.owner_id owner, lookup-remove other lane store.leases)

run-Holds :
    (lane : Text) (lease : LeaseRecord) (operations : List Operation) (store : FileLeaseStore)
    → All (IsForeign lease) operations
    → Holds lane lease store
    → Holds lane lease (run operations store)
unfolding run
run-Holds lane lease [] store f h = h
run-Holds lane lease (operation ∷ operations) store (f, fs) h =
    run-Holds lane lease operations (step operation store).0 fs
      (step-Holds lane lease operation store f h)

Holds-acquire :
    (lane owner : Text) (ttl now : ℕ) (store : FileLeaseStore) (lease : LeaseRecord)
    → (acquire lane owner ttl (aware now) store).0 ≡ ok lease
    → Holds lane lease (acquire lane owner ttl (aware now) store).1
      × (lease.owner_id ≡ owner)
      × (lease.expires_at ≡ now + ttl)
unfolding acquire
Holds-acquire lane owner ttl now store lease h = grind (arith, ==_refl lane, lookup-insert)

acquire_blocked :
    (lane owner : Text) (ttl now : ℕ) (store : FileLeaseStore) (lease : LeaseRecord)
    → Holds lane lease store
    → now < lease.expires_at
    → is_ok (acquire lane owner ttl (aware now) store).0 ≡ false
acquire_blocked lane owner ttl now store lease h early =
    ground (arith, is_ok-acquire lane owner ttl now store)

-- After an owner acquired a lane, other owners may call in any order: as long as the clock is before
-- the lease's end, the lane's file holds that lease, and a call of `acquire` for the lane by anybody
-- raises.
pub lease_exclusive :
    (lane owner : Text) (ttl now : ℕ) (store : FileLeaseStore) (lease : LeaseRecord)
    (operations : List Operation) (rival : Text) (rival_ttl later : ℕ)
    → (acquire lane owner ttl (aware now) store).0 ≡ ok lease
    → All (IsForeign lease) operations
    → later < now + ttl
    → let after = run operations (acquire lane owner ttl (aware now) store).1 in
      Holds lane lease after × (is_ok (acquire lane rival rival_ttl (aware later) after).0 ≡ false)
lease_exclusive lane owner ttl now store lease operations rival rival_ttl later got foreign early =
    let (h, _, ends) = Holds-acquire lane owner ttl now store lease got in
    let held = run-Holds lane lease operations _ foreign h in
    (held, acquire_blocked lane rival rival_ttl later _ lease held (omega arith))

renew_found :
    (lane owner : Text) (ttl now : ℕ) (store : FileLeaseStore) (lease : LeaseRecord)
    (entry : Option LeaseFile)
    → lookup lane store.leases ≡ entry
    → (renew lane owner ttl (aware now) store).0 ≡ ok lease
    → (old : LeaseRecord) × Holds lane old store
unfolding renew
renew_found lane owner ttl now store lease none e h = absurd (ground arith)
renew_found lane owner ttl now store lease (some unreadable) e h = absurd (ground arith)
renew_found lane owner ttl now store lease (some (readable old)) e h = (old, e)

-- A `renew` that returns found the owner's own lease, still active; the new record keeps its lane
-- and the time it was acquired, and lasts for the time to live from now on.
pub renew_lem :
    (lane owner : Text) (ttl now : ℕ) (store : FileLeaseStore) (lease : LeaseRecord)
    → (renew lane owner ttl (aware now) store).0 ≡ ok lease
    → (old : LeaseRecord) × Holds lane old store
      × (old.owner_id ≡ owner)
      × (now < old.expires_at)
      × Holds lane lease (renew lane owner ttl (aware now) store).1
      × (lease ≡ record {
        lane_id = lane;
        owner_id = owner;
        acquired_at = old.acquired_at;
        heartbeat_at = now;
        expires_at = now + ttl;
      })
unfolding renew
renew_lem lane owner ttl now store lease h =
    let (old, e) = renew_found lane owner ttl now store lease _ refl h in
    (
      old,
      e,
      ground (arith, ==_iff old.owner_id owner),
      ground arith,
      grind (arith, ==_refl lane, lookup-insert),
      ground arith,
    )

-- Once its owner has released a lane, whoever asks next with a well-formed identifier and a positive
-- time to live gets it.
pub acquire_after_release :
    (lane owner rival : Text) (ttl now : ℕ) (store : FileLeaseStore)
    → (release lane owner store).0 ≡ ok true
    → is_id rival ≡ true
    → 0 < ttl
    → is_ok (acquire lane rival ttl (aware now) (release lane owner store).1).0 ≡ true
unfolding release validate_id
acquire_after_release lane owner rival ttl now store h valid positive = ground (
  arith,
  is_ok-acquire lane rival ttl now (release lane owner store).1,
  lookup-remove lane lane store.leases,
  ==_refl lane,
  locks-release lane owner 0 (aware 0) store,
)
