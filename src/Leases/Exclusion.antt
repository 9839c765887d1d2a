-- ===== src/Leases/Exclusion.antt =====
-- One operation of the store: what it needs, what it leaves, and whom it keeps out.
use msos_autobuilder.Prelude.{
  ℕ, ◌≡◌, Bool, true, false, not, ◌&&◌, none, some, Text, leb, ltb, all, arith, lookup,
  remove-insert, is_ok,
}
use msos_autobuilder.Text.{is_empty, is_id_char}
use msos_autobuilder.Leases.{
  readable, unreadable, Timestamp, aware, FileLeaseStore, validate_id, acquire, renew, release,
}

-- Letters, digits, dots, dashes and underscores, at least one.
abbrev pub is_id : Text → Bool
is_id s = not (is_empty s) && all is_id_char s

abbrev pub is_unlocked : Text → FileLeaseStore → Bool
is_unlocked lane store = elim (lookup lane store.locks) [ none ↦ true | some _ ↦ false ]

-- Nobody has the lane at this instant.
abbrev pub is_available : Text → ℕ → FileLeaseStore → Bool
is_available lane now store = elim (lookup lane store.leases) [
  | none ↦ true
  | some unreadable ↦ false
  | some (readable lease) ↦ leb lease.expires_at now
]

-- `acquire` succeeds exactly if both identifiers are well formed, the time to live is positive, the
-- lane's lock file is not there and no lease of the lane is unreadable or lasts beyond the instant.
pub is_ok-acquire :
    (lane owner : Text) (ttl now : ℕ) (store : FileLeaseStore)
    → is_ok (acquire lane owner ttl (aware now) store).0 ≡ (
        is_id owner
        && ltb 0 ttl
        && is_id lane
        && is_unlocked lane store
        && is_available lane now store)
unfolding acquire validate_id
is_ok-acquire lane owner ttl now store = ground arith

module _ (lane owner : Text) (ttl : ℕ) (now : Timestamp) (store : FileLeaseStore) where
  pub locks-acquire : (acquire lane owner ttl now store).1.locks ≡ store.locks
  unfolding acquire
  locks-acquire = ground (arith, remove-insert lane tt store.locks)

  locks-renew : (renew lane owner ttl now store).1.locks ≡ store.locks
  unfolding renew
  locks-renew = ground (arith, remove-insert lane tt store.locks)

  pub locks-release : (release lane owner store).1.locks ≡ store.locks
  unfolding release
  locks-release = ground (arith, remove-insert lane tt store.locks)

  -- Whatever the arguments and the outcome, an operation leaves the lock files as it found them.
  pub locks_restored :
      ((acquire lane owner ttl now store).1.locks ≡ store.locks)
      × ((renew lane owner ttl now store).1.locks ≡ store.locks)
      × ((release lane owner store).1.locks ≡ store.locks)
  locks_restored = (locks-acquire, locks-renew, locks-release)

  leases-acquire_error :
      is_ok (acquire lane owner ttl now store).0 ≡ false
      → (acquire lane owner ttl now store).1.leases ≡ store.leases
  unfolding acquire
  leases-acquire_error h = ground arith

  leases-renew_error :
      is_ok (renew lane owner ttl now store).0 ≡ false
      → (renew lane owner ttl now store).1.leases ≡ store.leases
  unfolding renew
  leases-renew_error h = ground arith

  leases-release_error :
      is_ok (release lane owner store).0 ≡ false
      → (release lane owner store).1.leases ≡ store.leases
  unfolding release
  leases-release_error h = ground arith

  pub acquire_error :
      is_ok (acquire lane owner ttl now store).0 ≡ false
      → (acquire lane owner ttl now store).1 ≡ store
  acquire_error h = cc (leases-acquire_error h, locks-acquire)

  pub renew_error :
      is_ok (renew lane owner ttl now store).0 ≡ false → (renew lane owner ttl now store).1 ≡ store
  renew_error h = cc (leases-renew_error h, locks-renew)

  pub release_error :
      is_ok (release lane owner store).0 ≡ false → (release lane owner store).1 ≡ store
  release_error h = cc (leases-release_error h, locks-release)
