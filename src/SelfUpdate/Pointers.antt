-- ===== src/SelfUpdate/Pointers.antt =====
-- What the cutover and the rollback of src/msos_autobuilder/self_update_supervisor.py do to the pointers.
use msos_autobuilder.Prelude.{◌≡◌, refl, some, List, [], ◌∷◌, Text, arith, ok}
use msos_autobuilder.SelfUpdate.Records.{
  ManagedTask, SupervisorConfig, StagedRelease, Store, Collaborators, write_active_pointer,
}
use msos_autobuilder.SelfUpdate.Cutover.{on_machine, start_tasks, restore_previous_release, cutover}

module _ {M : Type 0} (tools : Collaborators M) (config : SupervisorConfig) where
  pub start_tasks_pointers :
      (tasks offs : List ManagedTask) (store : Store M)
      → ((start_tasks tools config tasks offs store).1.active ≡ store.active)
        × ((start_tasks tools config tasks offs store).1.previous ≡ store.previous)
  unfolding start_tasks on_machine
  start_tasks_pointers tasks [] store = (refl, refl)
  start_tasks_pointers tasks (off ∷ offs) store = (ground arith, ground arith)

  pub cutover_pointers :
      (previous_tasks staged_tasks staged_offs : List ManagedTask) (staged : StagedRelease)
      (store : Store M)
      → ((cutover tools config previous_tasks staged_tasks staged_offs staged store).1.previous
          ≡ store.previous)
        × ((cutover tools config previous_tasks staged_tasks staged_offs staged store).0.2 ≡ ok tt
            → (cutover tools config previous_tasks staged_tasks staged_offs staged store).1.active
              ≡ some staged)
  unfolding cutover on_machine write_active_pointer
  cutover_pointers previous_tasks staged_tasks staged_offs staged store =
      (grind (arith, start_tasks_pointers), λ h. grind (arith, start_tasks_pointers))

  pub restore_pointers :
      (running : List Text) (previous : StagedRelease) (store : Store M)
      → ((restore_previous_release tools config running previous store).1.previous ≡ store.previous)
        × ((restore_previous_release tools config running previous store).0.1 ≡ []
            → (restore_previous_release tools config running previous store).1.active
              ≡ some previous)
  unfolding restore_previous_release on_machine write_active_pointer
  restore_pointers running previous store =
      (grind (arith, start_tasks_pointers), λ h. grind (arith, start_tasks_pointers))
