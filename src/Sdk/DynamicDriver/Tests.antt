-- ===== src/Sdk/DynamicDriver/Tests.antt =====
-- Runs of `run_dynamic_supervisor!` in crates/plasmoid-sdk/src/supervise.rs.
use plasmoid.Prelude.{◌≡◌, refl, true, none, some, [], ◌∷◌, ◌++◌}
use plasmoid.Sdk.Spec.{ChildSpec, child_spec, default_flags}
use plasmoid.Sdk.Dynamic.{contains}
use plasmoid.Sdk.DynamicDriver.{
  DynamicDriver, boot, SupervisorCommand, start_child_op, terminate_child_op, on_tagged, drain,
  send_ref, spawn_link, log_error, started_child, refused_duplicate, run_op,
}
use plasmoid.Sdk.DynamicDriver.Stuck.{start_command, failed_start_sticks}

abbrev worker : ChildSpec
unfolding child_spec
worker = child_spec "a" "worker"

abbrev fresh : DynamicDriver
unfolding boot
fresh = boot default_flags

-- With the worker among its children, running as "one".
abbrev with_worker : DynamicDriver
unfolding fresh worker
with_worker = record fresh {
  sup = record fresh.sup { children = worker ∷ [] };
  live = ("a", "one") ∷ [];
}

abbrev stop_worker : SupervisorCommand
stop_worker = record { reply_to = "boss"; op = terminate_child_op "a" }

failed_start_sticks_example :
    (after : DynamicDriver) × (drain
        ((10, none) ∷ [])
        []
        (on_tagged 7 (some (start_command "boss" worker)) true fresh)
      ≡ some after)
    × (after.effects
        ≡ ((fresh.effects ++ send_ref "boss" 7 (started_child worker.id) ∷ [])
            ++ spawn_link worker.start.component worker.start.init_args ∷ [])
          ++ log_error worker.id ∷ [])
    × (after.live ≡ fresh.live)
    × (after.queue ≡ [])
    × ((run_op (start_child_op worker) after).0 ≡ refused_duplicate worker.id)
unfolding fresh contains
failed_start_sticks_example = failed_start_sticks 7 10 "boss" worker worker fresh refl refl refl
