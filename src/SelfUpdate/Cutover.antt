-- ===== src/SelfUpdate/Cutover.antt =====
-- The cutover to a staged release and the way back, in src/msos_autobuilder/self_update_supervisor.py.
use msos_autobuilder.Prelude.{
  Bool, true, false, List, [], ◌∷◌, ◌++◌, map, Text, Result, ok, err, map_err, is_ok,
}
use msos_autobuilder.SelfUpdate.Records.{
  SupervisorError, raised, ManagedTask, SupervisorConfig, StagedRelease, RollbackEvidence, Store,
  Collaborators, release_managed_tasks, write_active_pointer,
}

abbrev pub names : List ManagedTask → List Text
names tasks = map (λ t. t.task_name) tasks

module _ {M : Type 0} (tools : Collaborators M) (config : SupervisorConfig) where
  -- A collaborator's call on the machine.
  unfoldable pub on_machine :
      (M → Result Text (Unit {0}) × M) → Store M → Result SupervisorError (Unit {0}) × Store M
  on_machine call store =
      let r = call store.machine in (map_err raised r.0, record store { machine = r.1 })

  -- `a; b` where an exception in `a` skips `b`.
  abbrev pub and_then :
      Result SupervisorError (Unit {0}) × Store M
      → (Store M → Result SupervisorError (Unit {0}) × Store M)
      → Result SupervisorError (Unit {0}) × Store M
  and_then (ok done, store) next = next store
  and_then (err e, store) next = (err e, store)

  unfoldable pub start_tasks :
      List ManagedTask → List ManagedTask → Store M → Result SupervisorError (Unit {0}) × Store M
  unfolding on_machine
  start_tasks tasks [] store = on_machine (tools.start (names tasks)) store
  start_tasks tasks (off ∷ offs) store =
      and_then (on_machine (tools.start (names tasks)) store)
        (on_machine (tools.disable (names (off ∷ offs))))

  abbrev errors_of : Result SupervisorError (Unit {0}) → List SupervisorError
  errors_of (ok done) = []
  errors_of (err e) = e ∷ []

  -- Each step is tried whatever became of the earlier ones.
  unfoldable pub restore_previous_release :
      List Text → StagedRelease → Store M → (RollbackEvidence × List SupervisorError) × Store M
  unfolding write_active_pointer start_tasks release_managed_tasks
  restore_previous_release active_task_names previous store0 =
      let (tasks, offs) = release_managed_tasks tools config previous.release_path store0.machine in
      let (stopped, store1) = on_machine (tools.stop active_task_names) store0 in
      let (restored, store2) = write_active_pointer tools previous store1 in
      let (restarted, store3) = start_tasks tasks offs store2 in
      let (healthy, store4) = on_machine (tools.wait_for previous.commit tasks offs) store3 in
      (
        (
          record {
            restored_commit = previous.commit;
            pointer_restored = is_ok restored;
            tasks_restarted = is_ok restarted;
          },
          errors_of stopped ++ errors_of restored ++ errors_of restarted ++ errors_of healthy,
        ),
        store4,
      )

  -- How far the cutover came, with the error that ended it, if one did.
  unfoldable pub cutover :
      (previous_tasks staged_tasks staged_offs : List ManagedTask)
      → StagedRelease
      → Store M
      → (Bool × Bool × Result SupervisorError (Unit {0})) × Store M
  unfolding write_active_pointer start_tasks
  cutover previous_tasks staged_tasks staged_offs staged store0 =
      let (stopped, store1) = on_machine (tools.stop (names previous_tasks)) store0 in
      elim stopped [
        | err e ↦ ((false, false, err e), store1)
        | ok done ↦
            let (written, store2) = write_active_pointer tools staged store1 in
            elim written [
              | err e ↦ ((false, false, err e), store2)
              | ok done' ↦
                  let (up, store3) = start_tasks staged_tasks staged_offs store2 in
                  elim up [
                    | err e ↦ ((true, false, err e), store3)
                    | ok done'' ↦
                        let (healthy, store4) =
                          on_machine (tools.wait_for staged.commit staged_tasks staged_offs)
                            store3 in
                        ((true, true, healthy), store4)
                  ]
            ]
      ]
