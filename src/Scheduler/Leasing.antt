-- ===== src/Scheduler/Leasing.antt =====
-- The leases of one run: acquired in order, rolled back when one is refused, released at the end.
use msos_autobuilder.Prelude.{
  ℕ, ◌≡◌, refl, ◌∙◌, Bool, true, false, ◌&&◌, Option, none, some, List, [], ◌∷◌, Text, ◌==◌, ==_iff,
  ==_refl, arith, Bool-cases, inl, inr, lookup, lookup-insert, lookup-remove, text_mem,
  if◌then◌else◌, is_ok,
}
use msos_autobuilder.Leases.{
  LeaseFile, readable, unreadable, aware, FileLeaseStore, validate_id, acquire, release,
}
use msos_autobuilder.Leases.Exclusion.{is_id, is_unlocked, locks-acquire, locks-release}
use msos_autobuilder.Scheduler.{release_all}

-- The owner can release the lane without an error.
abbrev pub is_mine : Text → Option LeaseFile → Bool
is_mine owner none = true
is_mine owner (some unreadable) = false
is_mine owner (some (readable lease)) = lease.owner_id == owner

abbrev pub releasable : Text → FileLeaseStore → Text → Bool
releasable owner store lane =
    is_id lane && is_unlocked lane store && is_mine owner (lookup lane store.leases)

module _ (owner lane : Text) (store : FileLeaseStore) where
  release_one :
      (j : Text)
      → releasable owner store lane ≡ true
      → (is_ok (release lane owner store).0 ≡ true)
        × (lookup j (release lane owner store).1.leases
            ≡ (if lane == j then none else lookup j store.leases))
  unfolding release validate_id
  release_one j h = ground (arith, lookup-remove lane j store.leases, ==_iff lane j)

  -- A release that returns leaves no lease in its lane, and never adds one.
  release_clears :
      (j : Text)
      → is_ok (release lane owner store).0 ≡ true
      → lookup j (release lane owner store).1.leases
        ≡ (if lane == j then none else lookup j store.leases)
  unfolding release
  release_clears j h = ground (arith, lookup-remove lane j store.leases, ==_iff lane j)

  releasable-release :
      (j : Text)
      → releasable owner store lane ≡ true
      → releasable owner store j ≡ true
      → releasable owner (release lane owner store).1 j ≡ true
  releasable-release j h k =
      ground (arith, release_one j h, locks-release lane owner 0 (aware 0) store)

release_all-step :
    (owner lane : Text) (acquired : List Text) (store : FileLeaseStore)
    → is_ok (release lane owner store).0 ≡ true
    → release_all owner (lane ∷ acquired) store
      ≡ release_all owner acquired (release lane owner store).1
unfolding release_all
release_all-step owner lane acquired store h = ground arith

release_all-stops :
    (owner lane : Text) (acquired : List Text) (store : FileLeaseStore)
    → is_ok (release lane owner store).0 ≡ false
    → is_ok (release_all owner (lane ∷ acquired) store).0 ≡ false
unfolding release_all
release_all-stops owner lane acquired store h = ground arith

-- Releases that all return leave none of the lanes leased, and the other lanes as they were.
pub release_all-clears :
    (owner : Text) (acquired : List Text) (store : FileLeaseStore) (j : Text)
    → is_ok (release_all owner acquired store).0 ≡ true
    → lookup j (release_all owner acquired store).1.leases
      ≡ (if text_mem j acquired then none else lookup j store.leases)
unfolding text_mem
release_all-clears owner [] store j h = unfold release_all in refl
release_all-clears owner (lane ∷ acquired) store j h =
    elim (Bool-cases (is_ok (release lane owner store).0)) [
      | inl returned ↦
          let step = release_all-step owner lane acquired store returned in
          rw step (
            ground (
              arith,
              release_all-clears owner acquired (release lane owner store).1 j (rw step at h),
              release_clears owner lane store j returned,
              ==_iff lane j,
            ))
      | inr raised ↦ cc (h, release_all-stops owner lane acquired store raised)
    ]

-- The lanes that the owner holds are released without an error.
pub is_ok-release_all :
    (owner : Text) (acquired : List Text) (store : FileLeaseStore)
    → ((j : Text) → text_mem j acquired ≡ true → releasable owner store j ≡ true)
    → is_ok (release_all owner acquired store).0 ≡ true
unfolding text_mem
is_ok-release_all owner [] store mine = unfold release_all in refl
is_ok-release_all owner (lane ∷ acquired) store mine =
    let first = mine lane (ground (arith, ==_refl lane)) in
    rw (release_all-step owner lane acquired store (release_one owner lane store lane first).0) (
      is_ok-release_all owner acquired (release lane owner store).1
        λ j m. releasable-release owner lane store j first (mine j (ground arith)))

module _ (lane owner : Text) (ttl now : ℕ) (store : FileLeaseStore)
    (got : is_ok (acquire lane owner ttl (aware now) store).0 ≡ true) where
  acquire_one :
      (j : Text)
      → (is_id lane ≡ true)
        × (is_unlocked lane store ≡ true)
        × (is_mine owner (lookup j (acquire lane owner ttl (aware now) store).1.leases)
            ≡ (if lane == j then true else is_mine owner (lookup j store.leases)))
  unfolding acquire validate_id
  acquire_one j = grind (arith, lookup-insert, ==_refl owner)

  acquire_other :
      (j : Text)
      → (lane == j) ≡ false
      → lookup j (acquire lane owner ttl (aware now) store).1.leases ≡ lookup j store.leases
  unfolding acquire
  acquire_other j h = grind (arith, lookup-insert)

-- Between two acquisitions: the lanes acquired so far are the owner's, all else is as at the start.
pub record Progress (owner : Text) (start : FileLeaseStore) (acquired : List Text)
    (store : FileLeaseStore) : Type 0 where
  pub locks : store.locks ≡ start.locks
  pub mine : (j : Text) → text_mem j acquired ≡ true → releasable owner store j ≡ true
  pub others :
      (j : Text) → text_mem j acquired ≡ false → lookup j store.leases ≡ lookup j start.leases

pub Progress-start : (owner : Text) (start : FileLeaseStore) → Progress owner start [] start
unfolding text_mem
Progress-start owner start = record {
  locks = refl;
  mine = λ j m. absurd (ground arith);
  others = λ j m. refl;
}

pub Progress-acquire :
    (owner lane : Text) (ttl now : ℕ) (start : FileLeaseStore) (acquired : List Text)
    (store : FileLeaseStore)
    → Progress owner start acquired store
    → is_ok (acquire lane owner ttl (aware now) store).0 ≡ true
    → Progress owner start (lane ∷ acquired) (acquire lane owner ttl (aware now) store).1
unfolding text_mem
Progress-acquire owner lane ttl now start acquired store p got = record {
  locks = locks-acquire lane owner ttl (aware now) store ∙ p.locks;
  mine = λ j m. ground (
    arith,
    acquire_one lane owner ttl now store got j,
    p.mine j,
    ==_iff lane j,
    locks-acquire lane owner ttl (aware now) store,
  );
  others = λ j m. ground (arith, acquire_other lane owner ttl now store got j, p.others j);
}
