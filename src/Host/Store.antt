-- ===== src/Host/Store.antt =====
-- What src/msos_autobuilder/persistent_host.py keeps on disk, and its file operations. The host may
-- be killed before any of them: `crash_in` counts the operations that are left, and a crash runs no
-- exception handler.
pub mod Sorting
use msos_autobuilder.Prelude.{
  ℕ, zero, suc, Bool, true, false, Option, none, some, List, [], ◌∷◌, Text, codes, ◌==◌, Dict,
  if◌then◌else◌, Result, ok, err,
}
use msos_autobuilder.Text.{text_lt, ends_with, drop_end}
use msos_autobuilder.WorkAdmission.Claims.{ClaimStore}
use msos_autobuilder.Host.Jobs.{HostError}

-- An archive directory: `job.yaml`, the outcome in `error.json` or `report.json`, and its notes.
pub record Archive : Type 0 where
  pub job : Option Text
  pub outcome : Option Text
  pub recovered : Bool
  pub release_refused : Bool
  pub feed_conflict : Option (Text × Text)

abbrev pub empty_archive : Archive
empty_archive = record {
  job = none;
  outcome = none;
  recovered = false;
  release_refused = false;
  feed_conflict = none;
}

-- `feed-seen.json`: job identifiers with content hashes, or what `_load_feed_ledger` refuses.
pub data FeedLedger : Type 0 where
  no_ledger invalid_ledger : FeedLedger
  ledger_of : Dict Text → FeedLedger

-- What `_existing_pid` reads from the lock file, with the token of the host that wrote it.
pub data HostLock : Type 0 where
  unreadable_lock : HostLock
  held_by : (pid : ℕ) (token : Text) → HostLock

-- The queue directories, keyed by file name, the archives, keyed by directory name, and the rest of
-- the host's root. `drawn` counts the random tokens, `machine` is all that is outside.
pub record HostStore (M : Type 0) : Type 0 where
  pub pending : Dict Text
  pub running : Dict Text
  pub staging : Dict Archive
  pub completed : Dict Archive
  pub failed : Dict Archive
  pub feed_ledger : FeedLedger
  pub lock : Option HostLock
  pub stop_requested : Bool
  pub claims : ClaimStore
  pub drawn : ℕ
  pub machine : M

pub record Process (M : Type 0) : Type 0 where
  pub store : HostStore M
  pub crash_in : Option ℕ

pub data Answer {ℓ} (A : Type ℓ) : Type ℓ where
  returned : A → Answer A
  raised : HostError → Answer A
  crashed : Answer A

-- `sorted(...)` of file names.
insert_name : Text → List Text → List Text
insert_name name [] = name ∷ []
insert_name name (other ∷ others) =
    let later = other ∷ insert_name name others in
    if text_lt name other then name ∷ other ∷ others else later

unfoldable pub sort_names : List Text → List Text
unfolding insert_name
sort_names [] = []
sort_names (name ∷ others) = insert_name name (sort_names others)

-- The file names of a directory, and those that `glob("*.yaml")` gives.
abbrev pub file_names {ℓ} : {V : Type ℓ} → Dict V → List Text
file_names [] = []
file_names ((name, file) ∷ files) = name ∷ file_names files

abbrev pub yaml_names : Dict Text → List Text
yaml_names [] = []
yaml_names ((name, file) ∷ files) =
    let rest = yaml_names files in if ends_with (codes ".yaml") name then name ∷ rest else rest

-- `path.stem` of a file whose name ends in `.yaml`
unfoldable pub stem : Text → Text
unfolding drop_end ◌==◌
stem name = if name == codes ".yaml" then name else drop_end 5 name

abbrev pub Action {ℓ} : Type 0 → Type ℓ → Type ℓ
Action M A = Process M → Answer A × Process M

module _ {M : Type 0} where
  abbrev pub return {ℓ} : {A : Type ℓ} → A → Action M A
  return value process = (returned value, process)

  abbrev pub raise {ℓ} : {A : Type ℓ} → HostError → Action M A
  raise e process = (raised e, process)

  -- A test or a parse that touches no file.
  unfoldable pub pure_call {ℓ} : {A : Type ℓ} → Result HostError A → Action M A
  pure_call (ok value) process = (returned value, process)
  pure_call (err e) process = (raised e, process)

  -- `if test: raise e`
  unfoldable pub refuse_if : Bool → HostError → Action M (Unit {0})
  refuse_if true e process = (raised e, process)
  refuse_if false e process = (returned tt, process)

  unfoldable pub after {ℓ κ} :
      {A : Type ℓ} {B : Type κ} → Answer A × Process M → (A → Action M B) → Answer B × Process M
  after (returned value, process) next = next value process
  after (raised e, process) next = (raised e, process)
  after (crashed, process) next = (crashed, process)

  infixl 5 ◌>>=◌ ◌>>◌
  unfoldable pub ◌>>=◌ {ℓ κ} :
      {A : Type ℓ} {B : Type κ} → Action M A → (A → Action M B) → Action M B
  unfolding after
  (action >>= next) process = after (action process) next

  abbrev pub ◌>>◌ {ℓ κ} : {A : Type ℓ} {B : Type κ} → Action M A → Action M B → Action M B
  action >> rest = action >>= λ unused. rest

  unfoldable pub handle {ℓ} :
      {A : Type ℓ} → Answer A × Process M → (HostError → Action M A) → Answer A × Process M
  handle (returned value, process) handler = (returned value, process)
  handle (raised e, process) handler = handler e process
  handle (crashed, process) handler = (crashed, process)

  -- `try: ... except BaseException as exc: ...`
  unfoldable pub try_except {ℓ} : {A : Type ℓ} → Action M A → (HostError → Action M A) → Action M A
  unfolding handle
  try_except body handler process = handle (body process) handler

  -- The store as it is read at this point.
  unfoldable pub with_store {ℓ} : {A : Type ℓ} → (HostStore M → Action M A) → Action M A
  with_store next process = next process.store process

  abbrev pub answer {ℓ} :
      {A : Type ℓ} → Result HostError A × HostStore M → Option ℕ → Answer A × Process M
  answer (ok value, store) left = (returned value, record { store = store; crash_in = left })
  answer (err e, store) left = (raised e, record { store = store; crash_in = left })

  -- One file operation, unless the host is killed before it.
  unfoldable pub operation {ℓ} :
      {A : Type ℓ} → (HostStore M → Result HostError A × HostStore M) → Action M A
  operation act process = elim process.crash_in [
    | none ↦ answer (act process.store) none
    | some zero ↦ (crashed, process)
    | some (suc left) ↦ answer (act process.store) (some left)
  ]
