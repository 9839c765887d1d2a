-- ===== src/Host/Files.antt =====
-- The file operations of src/msos_autobuilder/persistent_host.py on the queue and the archives, each
-- one step: `os.replace`, `mkdir(exist_ok=False)`, `unlink` and the atomic writes.
use msos_autobuilder.Prelude.{ℕ, ◌+◌, none, some, Text, lookup, insert, remove, Result, ok, err}
use msos_autobuilder.Host.Jobs.{HostError, file_exists, file_missing}
use msos_autobuilder.Host.Store.{Archive, empty_archive, HostStore, returned, Action, operation}

-- What a file operation makes of the store, unless it raises.
abbrev pub Change : Type 0 → Type 0
Change M = HostStore M → Result HostError (HostStore M)

module _ {M : Type 0} where
  abbrev pub commit :
      HostStore M → Result HostError (HostStore M) → Result HostError (Unit {0}) × HostStore M
  commit store (ok changed) = (ok tt, changed)
  commit store (err e) = (err e, store)

  unfoldable pub file_operation : Change M → Action M (Unit {0})
  file_operation change = operation λ store. commit store (change store)

  -- `secrets.token_hex(...)`, from the supply `token`
  unfoldable pub token_hex : (ℕ → Text) → Action M Text
  token_hex token process =
      let store = process.store in
      (
        returned (token store.drawn),
        record process { store = record store { drawn = store.drawn + 1 } },
      )

  unfoldable pub write_pending : Text → Text → Change M
  write_pending name text store = ok (record store { pending = insert name text store.pending })

  -- `os.replace(pending_path, running_path)`
  unfoldable pub start_running : Text → Change M
  start_running name store = elim (lookup name store.pending) [
    | none ↦ err file_missing
    | some text ↦ ok (record store {
      pending = remove name store.pending;
      running = insert name text store.running;
    })
  ]

  -- `staging.mkdir(parents=True, exist_ok=False)`
  unfoldable pub make_staging : Text → Change M
  make_staging dir store = elim (lookup dir store.staging) [
    | some archive ↦ err file_exists
    | none ↦ ok (record store { staging = insert dir empty_archive store.staging })
  ]

  -- `os.replace(running_path, staging / "job.yaml")`
  unfoldable pub move_job : Text → Text → Change M
  move_job name dir store = elim (lookup name store.running) [
    | none ↦ err file_missing
    | some text ↦ elim (lookup dir store.staging) [
      | none ↦ err file_missing
      | some archive ↦ ok (record store {
        running = remove name store.running;
        staging = insert dir (record archive { job = some text }) store.staging;
      })
    ]
  ]

  -- `shutil.copy2(running_path, staging / "job.yaml")`
  unfoldable pub copy_job : Text → Text → Change M
  copy_job name dir store = elim (lookup name store.running) [
    | none ↦ err file_missing
    | some text ↦ elim (lookup dir store.staging) [
      | none ↦ err file_missing
      | some archive ↦
          ok (record store {
            staging = insert dir (record archive { job = some text }) store.staging;
          })
    ]
  ]

  -- `error.json` or `report.json` of the staged archive
  unfoldable pub write_outcome : Text → Text → Change M
  write_outcome dir outcome store = elim (lookup dir store.staging) [
    | none ↦ err file_missing
    | some archive ↦ ok (record store {
      staging = insert dir (record archive { outcome = some outcome }) store.staging;
    })
  ]

  -- `running_path.unlink()`
  unfoldable pub unlink_running : Text → Change M
  unlink_running name store = elim (lookup name store.running) [
    | none ↦ err file_missing
    | some text ↦ ok (record store { running = remove name store.running })
  ]

  -- `os.replace(staging, destination)` with a destination in the failed or the completed archives,
  -- which an existing directory there refuses.
  unfoldable pub publish_failed : Text → Text → Change M
  publish_failed dir destination store = elim (lookup dir store.staging) [
    | none ↦ err file_missing
    | some archive ↦ elim (lookup destination store.failed) [
      | some existing ↦ err file_exists
      | none ↦ ok (record store {
        staging = remove dir store.staging;
        failed = insert destination archive store.failed;
      })
    ]
  ]

  unfoldable pub publish_completed : Text → Text → Change M
  publish_completed dir destination store = elim (lookup dir store.staging) [
    | none ↦ err file_missing
    | some archive ↦ elim (lookup destination store.completed) [
      | some existing ↦ err file_exists
      | none ↦ ok (record store {
        staging = remove dir store.staging;
        completed = insert destination archive store.completed;
      })
    ]
  ]

  -- A note beside an archive that failed: `recovery.json`, `claim-release-error.json` or the `error.json`
  -- of a conflict.
  unfoldable pub annotate_failed : Text → (Archive → Archive) → Change M
  annotate_failed dir change store = elim (lookup dir store.failed) [
    | none ↦ err file_missing
    | some archive ↦ ok (record store { failed = insert dir (change archive) store.failed })
  ]

  -- `destination.mkdir(parents=True, exist_ok=False)` for a conflict of the feed
  unfoldable pub make_failed : Text → Change M
  make_failed dir store = elim (lookup dir store.failed) [
    | some archive ↦ err file_exists
    | none ↦ ok (record store { failed = insert dir empty_archive store.failed })
  ]
