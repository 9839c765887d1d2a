-- ===== src/Host/Tools.antt =====
-- What the host of src/msos_autobuilder/persistent_host.py calls: the codecs, the random tokens, the
-- clock, git and the runner of a job. `M` is the state of all that is outside of the host's root.
use msos_autobuilder.Prelude.{ℕ, Bool, Option, Text, Dict, Result, ok, err}
use msos_autobuilder.Host.Jobs.{Codec, failed_with, HostJob, Manifest}
use msos_autobuilder.Host.Store.{Process, Action, returned, raised}

pub record HostTools (M : Type 0) : Type 0 where
  pub codec : Codec
  -- the n-th value of `secrets.token_hex`
  pub token : ℕ → Text
  pub pid : ℕ
  pub pid_alive : ℕ → M → Bool
  pub now : M → ℕ
  pub timestamp : M → Text
  -- the feed's checkout: its files by name, if its directory exists
  pub fetch_feed : M → Result Text (Option (Dict Text)) × M
  pub load_config : M → Result Text (Unit {0}) × M
  pub destination_is_source : Text → M → Bool
  pub destination_is_inside : Text → M → Bool
  -- `fetch_declared_target(repository, commit, remote_url)`: the prepared commit
  pub fetch_declared_target : (repository commit remote_url : Text) → M → Result Text Text × M
  pub current_head : M → Result Text Text × M
  pub load_specs : Manifest → M → Result Text (Unit {0}) × M
  pub runner : HostJob → M → Result Text (Unit {0}) × M
  pub collect_patches : HostJob → M → Result Text (Unit {0}) × M

abbrev with_machine : {M : Type 0} → M → Process M → Process M
with_machine machine process = record process { store = record process.store { machine = machine } }

module _ {M : Type 0} where
  unfoldable pub outside {ℓ} : {A : Type ℓ} → Result Text A × M → Action M A
  outside (ok value, machine) process = (returned value, with_machine machine process)
  outside (err message, machine) process =
      (raised (failed_with message), with_machine machine process)

  -- A call that changes only what is outside.
  unfoldable pub call {ℓ} : {A : Type ℓ} → (M → Result Text A × M) → Action M A
  unfolding outside
  call act process = outside (act process.store.machine) process
