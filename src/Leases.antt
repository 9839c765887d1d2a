-- ===== src/Leases.antt =====
-- src/msos_autobuilder/leases.py: a lease file and a lock file for each lane. The directory is two
-- dictionaries, the files `<lane_id>.json` and `<lane_id>.lock`. Instants are seconds; an operation
-- takes the clock's reading as an argument, as the callers may. Another process shows in the model
-- as a lock file that is there when an operation starts, and as operations between two of ours.
pub mod Exclusion
pub mod Traces
pub mod Tests
use msos_autobuilder.Prelude.{
  ℕ, ◌+◌, Bool, true, false, not, ◌&&◌, Option, none, some, List, [], ◌∷◌, Text, ltb, ◌==◌, all,
  Dict, lookup, insert, remove, if◌then◌else◌, Result, ok, err, raise_if, ◌>>=◌, ◌>>◌,
}
use msos_autobuilder.Text.{is_id_char, is_empty}

pub record LeaseRecord : Type 0 where
  pub lane_id : Text
  pub owner_id : Text
  pub acquired_at : ℕ
  pub heartbeat_at : ℕ
  pub expires_at : ℕ

unfoldable pub active_at : LeaseRecord → ℕ → Bool
active_at lease now = ltb now lease.expires_at

-- What a lease file holds: a record, or what `_read_unlocked` cannot read.
pub data LeaseFile : Type 0 where
  readable : LeaseRecord → LeaseFile
  unreadable : LeaseFile

-- A `datetime` argument, with or without its zone.
pub data Timestamp : Type 0 where
  aware naive : ℕ → Timestamp

-- `LeaseStateError` in the first rows, `LeaseConflictError` in the last.
pub data LeaseError : Type 0 where
  timestamp_not_aware ttl_not_positive : LeaseError
  invalid_id : Text → LeaseError
  operation_in_progress no_lease invalid_lease_file : (lane : Text) → LeaseError
  leased_by : (lane owner : Text) → ℕ → LeaseError
  owned_by : (lane owner : Text) → LeaseError
  lease_expired : (lane : Text) → LeaseError

pub record FileLeaseStore : Type 0 where
  pub leases : Dict LeaseFile
  pub locks : Dict (Unit {0})

-- A method returns or raises, and leaves a store behind in both cases.
abbrev pub Outcome : Type 0 → Type 0
Outcome A = Result LeaseError A × FileLeaseStore

require_aware : Timestamp → Result LeaseError ℕ
require_aware (aware t) = ok t
require_aware (naive t) = err timestamp_not_aware

unfoldable pub validate_id : Text → Result LeaseError Text
unfolding is_id_char all
validate_id value =
    if not (is_empty value) && all is_id_char value then ok value else err (invalid_id value)

-- The context manager `_lane_lock` round a body: `lock_path.unlink` runs however the body ends.
unfoldable pub lane_lock :
    {A : Type 0} → Text → (FileLeaseStore → Outcome A) → FileLeaseStore → Outcome A
unfolding validate_id
lane_lock lane body store = elim (validate_id lane) [
  | err e ↦ (err e, store)
  | ok _ ↦ elim (lookup lane store.locks) [
    | some _ ↦ (err (operation_in_progress lane), store)
    | none ↦
        let (result, after) = body (record store { locks = insert lane tt store.locks }) in
        (result, record after { locks = remove lane after.locks })
  ]
]

unfoldable pub read_unlocked : Text → FileLeaseStore → Result LeaseError (Option LeaseRecord)
read_unlocked lane store = elim (lookup lane store.leases) [
  | none ↦ ok none
  | some unreadable ↦ err (invalid_lease_file lane)
  | some (readable lease) ↦ ok (some lease)
]

write_unlocked : LeaseRecord → FileLeaseStore → FileLeaseStore
write_unlocked lease store = record store {
  leases = insert lease.lane_id (readable lease) store.leases;
}

unfoldable pub get : Text → FileLeaseStore → Result LeaseError (Option LeaseRecord)
unfolding validate_id read_unlocked
get lane store = do validate_id lane; read_unlocked lane store

-- The body of `acquire` under the lock.
abbrev acquire_locked : Text → Text → ℕ → ℕ → FileLeaseStore → Outcome LeaseRecord
acquire_locked lane owner ttl instant store =
    let grant : Outcome LeaseRecord =
      (let lease : LeaseRecord = record {
        lane_id = lane;
        owner_id = owner;
        acquired_at = instant;
        heartbeat_at = instant;
        expires_at = instant + ttl;
      } in
        (ok lease, write_unlocked lease store)) in
    elim (read_unlocked lane store) [
      | err e ↦ (err e, store)
      | ok none ↦ grant
      | ok (some existing) ↦
          if active_at existing instant
          then (err (leased_by lane existing.owner_id existing.expires_at), store)
          else grant
    ]

abbrev run_at :
    {A : Type 0}
    → Result LeaseError ℕ
    → (ℕ → FileLeaseStore → Outcome A)
    → FileLeaseStore
    → Outcome A
run_at (err e) f store = (err e, store)
run_at (ok t) f store = f t store

unfoldable pub acquire : Text → Text → ℕ → Timestamp → FileLeaseStore → Outcome LeaseRecord
unfolding lane_lock read_unlocked write_unlocked active_at require_aware
acquire lane owner ttl now =
    run_at (do validate_id owner; raise_if (ltb ttl 1) ttl_not_positive; require_aware now)
      (λ instant. lane_lock lane (acquire_locked lane owner ttl instant))

abbrev renew_locked : Text → Text → ℕ → ℕ → FileLeaseStore → Outcome LeaseRecord
renew_locked lane owner ttl instant store = elim (read_unlocked lane store) [
  | err e ↦ (err e, store)
  | ok none ↦ (err (no_lease lane), store)
  | ok (some existing) ↦
      if not (existing.owner_id == owner)
      then (err (owned_by lane existing.owner_id), store)
      else if not (active_at existing instant)
      then (err (lease_expired lane), store)
      else (let lease : LeaseRecord = record {
        lane_id = lane;
        owner_id = owner;
        acquired_at = existing.acquired_at;
        heartbeat_at = instant;
        expires_at = instant + ttl;
      } in
          (ok lease, write_unlocked lease store))
]

unfoldable pub renew : Text → Text → ℕ → Timestamp → FileLeaseStore → Outcome LeaseRecord
unfolding lane_lock read_unlocked write_unlocked active_at require_aware
renew lane owner ttl now =
    run_at (do raise_if (ltb ttl 1) ttl_not_positive; require_aware now)
      (λ instant. lane_lock lane (renew_locked lane owner ttl instant))

abbrev release_locked : Text → Text → FileLeaseStore → Outcome Bool
release_locked lane owner store = elim (read_unlocked lane store) [
  | err e ↦ (err e, store)
  | ok none ↦ (ok false, store)
  | ok (some existing) ↦
      if not (existing.owner_id == owner)
      then (err (owned_by lane existing.owner_id), store)
      else (ok true, record store { leases = remove lane store.leases })
]

unfoldable pub release : Text → Text → FileLeaseStore → Outcome Bool
unfolding lane_lock read_unlocked
release lane owner = lane_lock lane (release_locked lane owner)
