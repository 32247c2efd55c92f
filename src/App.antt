-- ===== src/App.antt =====
-- src/app.rs, and `watch_root` of src/main.rs: what a node runs, and what its death means.
pub mod Root
mod Tests
use plasmoid.Prelude.{
  ℕ, String, Bool, true, false, not, Option, none, some, List, [], ◌∷◌, if◌then◌else◌, ◌==◌,
}
use plasmoid.Pid.{Pid, pid_eq}
use plasmoid.Message.{ExitReason, normal}
use plasmoid.Registry.State.{ParticleDeath}

pub data RestartType : Type 0 where
  permanent transient temporary : RestartType

unfoldable pub should_stop_node : RestartType → Bool → Bool
should_stop_node permanent abnormal = true
should_stop_node transient abnormal = abnormal
should_stop_node temporary abnormal = false

-- What the subscription to the deaths yields; `lagged` says that some were passed over.
pub data Notice : Type 0 where
  death : ParticleDeath → Notice
  lagged : Notice
  channel_closed : Notice

-- The node stops with an exit code, goes on, or is still watching when the notices end.
pub data Fate : Type 0 where
  stops : (code : ℕ) → Fate
  goes_on : Fate
  watching : Fate

-- `!matches!(death.reason, ExitReason::Normal)`
abbrev pub is_failure : ExitReason → Bool
is_failure normal = false
is_failure _ = true

abbrev pub decide : RestartType → Bool → Fate
decide restart_type abnormal =
    if should_stop_node restart_type abnormal then stops (if abnormal then 1 else 0) else goes_on

unfoldable pub watch_root : Pid → RestartType → List Notice → Fate
unfolding should_stop_node
watch_root root restart_type [] = watching
watch_root root restart_type (lagged ∷ notices) = watch_root root restart_type notices
watch_root root restart_type (channel_closed ∷ notices) = stops 1
watch_root root restart_type (death d ∷ notices) =
    let rest = watch_root root restart_type notices in
    if d.pid == root then decide restart_type (is_failure d.reason) else rest
