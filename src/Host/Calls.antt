-- ===== src/Host/Calls.antt =====
-- Sequences of calls of the host of src/msos_autobuilder/persistent_host.py: what is enqueued and what
-- the host takes from its feed is never lost, in whatever order the calls come and wherever a call is
-- killed.
use msos_autobuilder.Prelude.{
  ℕ, ◌≡◌, sym, subst, lookup, none, Option, List, [], ◌∷◌, Text, Bool, false,
}
use msos_autobuilder.Host.Jobs.{safe_id, job_exists, validate_manifest}
use msos_autobuilder.Host.Store.{HostStore, Process, Answer, refuse_if, returned, raised, crashed}
use msos_autobuilder.Host.Files.{file_operation, write_pending}
use msos_autobuilder.Host.Tools.{HostTools}
use msos_autobuilder.Host.Feed.{is_known, yaml_file, load_yaml, enqueue_manifest}
use msos_autobuilder.Host.Process.{run_once}
use msos_autobuilder.Host.Triples.{
  Post, Triple, Keeps, Triple-return, Triple-pure_call, Triple-with_store, Triple-file_operation,
  Triple-refuse_if, Triple->>=,
}
use msos_autobuilder.Host.Stands.{InStore}
use msos_autobuilder.Host.Stands.Operations.{write_pending-InStore}
use msos_autobuilder.Host.Stands.Importing.{unknown_waits_not}
use msos_autobuilder.Host.Kept.Runs.{run_once-InStore}

-- A call, with the number of file operations after which it is killed, if it is; between calls the
-- rest of the world may change.
pub data HostCall (M : Type 0) : Type 0 where
  enqueue :
      (manifest_text job_id : Text)
      → (approved : Bool) → (requested_by : Text) → (expected : Option Text) → (crash_in : Option ℕ)
      → HostCall M
  run : (sync_feed : Bool) → (crash_in : Option ℕ) → HostCall M
  elsewhere : (M → M) → HostCall M

module _ {M : Type 0} (tools : HostTools M) where
  abbrev started : HostStore M → Option ℕ → Process M
  started store crash_in = record { store = store; crash_in = crash_in }

  unfoldable pub host_call : HostCall M → HostStore M → HostStore M
  host_call (enqueue text job_id approved requested_by expected crash_in) store =
      (enqueue_manifest tools text job_id approved requested_by expected
        (started store crash_in)).1.store
  host_call (run sync_feed crash_in) store =
      (run_once tools sync_feed (started store crash_in)).1.store
  host_call (elsewhere change) store = record store { machine = change store.machine }

  unfoldable pub host_calls : List (HostCall M) → HostStore M → HostStore M
  unfolding host_call
  host_calls [] store = store
  host_calls (call ∷ calls) store = host_calls calls (host_call call store)

  abbrev Free : Text → Text → HostStore M → Type 0
  Free t id s = InStore t s × (lookup (yaml_file id) s.pending ≡ none)

  refuse_known :
      (t id : Text) (s : HostStore M)
      → Triple
          (λ r. (r ≡ s) × InStore t r)
          (refuse_if (is_known id s) job_exists)
          (λ u. Free t id)
          (InStore t)
  refuse_known t id s =
      Triple-refuse_if (is_known id s) job_exists
        (λ r e p. (p.1, unknown_waits_not id r (subst (λ v. is_known id v ≡ false) (sym p.0) e)))
        (λ r p. p.1)

  write-Free :
      (t id text : Text)
      → Triple
          (Free t id)
          (file_operation (write_pending (yaml_file id) text))
          (λ u. InStore t)
          (InStore t)
  write-Free t id text =
      Triple-file_operation _ (λ r p. p.0)
        (λ r p. write_pending-InStore t r (yaml_file id) text p.1 p.0)

  enqueue_manifest-InStore :
      (t text job_id : Text) (approved : Bool) (requested_by : Text) (expected : Option Text)
      → Keeps (InStore t) (enqueue_manifest tools text job_id approved requested_by expected)
  unfolding enqueue_manifest
  enqueue_manifest-InStore t text job_id approved requested_by expected =
      Triple->>= (Triple-pure_call (safe_id job_id) (λ v s e p. p) (λ s p. p)) λ id.
        Triple-with_store λ s.
          Triple->>=
            (Triple->>= (refuse_known t id s)
              (λ u. Triple-pure_call (load_yaml tools.codec text) (λ v r e p. p) (λ r p. p.0)))
            λ raw.
              Triple->>= (Triple-pure_call (validate_manifest raw) (λ v r e p. p) (λ r p. p.0))
                λ manifest. Triple->>= (write-Free t id _) (λ u. Triple-return _ (λ r p. p))

  store_after :
      (P : HostStore M → Type 0) {A : Type 0} (r : Answer A × Process M)
      → Post (λ v. P) P r
      → P r.1.store
  store_after P (returned v, process) h = h
  store_after P (raised e, process) h = h
  store_after P (crashed, process) h = h

  host_call-InStore :
      (t : Text) (call : HostCall M) (s : HostStore M) → InStore t s → InStore t (host_call call s)
  unfolding host_call
  host_call-InStore t (enqueue text job_id approved requested_by expected crash_in) s h =
      store_after (InStore t) _ (
        (enqueue_manifest-InStore t text job_id approved requested_by expected).holds
          (started s crash_in) h)
  host_call-InStore t (run sync_feed crash_in) s h =
      store_after (InStore t) _ ((run_once-InStore tools t sync_feed).holds (started s crash_in) h)
  host_call-InStore t (elsewhere change) s h = h

  -- A text that stands in the queue or as the job of an archive stands there after any list of
  -- calls, each of which may return, raise, or be killed before any of its file operations.
  pub host_calls-InStore :
      (calls : List (HostCall M)) (t : Text) (s : HostStore M)
      → InStore t s
      → InStore t (host_calls calls s)
  unfolding host_calls
  host_calls-InStore [] t s h = h
  host_calls-InStore (call ∷ calls) t s h =
      host_calls-InStore calls t (host_call call s) (host_call-InStore t call s h)
