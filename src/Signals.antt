-- ===== src/Signals.antt =====
-- src/signals.rs: signals across nodes, one turn of each loop. What is sent is a list.
mod Tests
pub mod Fire
pub mod Lost
pub mod Told
pub mod Downs
use plasmoid.Prelude.{Option, none, some, List, [], ◌∷◌, ◌++◌, map, ℕ}
use plasmoid.Prelude.Map.{Map}
use plasmoid.Pid.{Pid, EndpointId}
use plasmoid.Message.{ExitReason, no_connection}
use plasmoid.Registry.State.{ParticleRegistry, ParticleDeath}
use plasmoid.Registry.Send.{deliver_down}
use plasmoid.Registry.Relate.{links_with, monitors_with, forget_node}
use plasmoid.Registry.Exit.{apply_inherited_exit}

-- `PeerMessage::Exit` and `PeerMessage::Down`, as they are sent.
pub data Signal : Type 0 where
  exit : (from to : Pid) (reason : ExitReason) → Signal
  down : (from to : Pid) (ref_id : ℕ) (reason : ExitReason) → Signal

-- The loop body of `spawn_signal_forwarder`: the receiving nodes and their messages.
unfoldable pub forward : ParticleDeath → List (EndpointId × Signal)
forward death =
    map (λ p. (p.node, exit death.pid p death.reason)) death.remote_links
    ++ map (λ w. (w.0.node, down death.pid w.0 w.1 death.reason)) death.remote_monitors

unfoldable pub fire_links : List (Pid × Pid) → ParticleRegistry → Option ParticleRegistry
unfolding apply_inherited_exit
fire_links [] r = some r
fire_links ((local, remote) ∷ ls) r = elim (apply_inherited_exit local remote no_connection r) [
  | none ↦ none
  | some r' ↦ fire_links ls r'
]

unfoldable pub fire_monitors : List (Pid × Pid × ℕ) → ParticleRegistry → ParticleRegistry
unfolding deliver_down
fire_monitors [] r = r
fire_monitors ((watcher, target, ref_id) ∷ ms) r =
    fire_monitors ms (deliver_down watcher target ref_id no_connection r)

-- The loop body of `spawn_node_loss_reactor`; with nothing that crosses to the node, `forget_node`
-- is not called.
unfoldable pub fire_all :
    List (Pid × Pid)
    → List (Pid × Pid × ℕ)
    → EndpointId
    → ParticleRegistry
    → Option ParticleRegistry
unfolding fire_links fire_monitors forget_node
fire_all [] [] node r = some r
fire_all links monitors node r = elim (fire_links links r) [
  | none ↦ none
  | some r' ↦ some (forget_node node (fire_monitors monitors r'))
]

unfoldable pub on_node_lost : EndpointId → ParticleRegistry → Option ParticleRegistry
unfolding links_with monitors_with fire_all
on_node_lost node r =
    fire_all (links_with node r.particle_states) (monitors_with node r.particle_states) node r
