-- ===== src/Protocol/Signal.antt =====
-- src/protocol.rs: what becomes of a relationship with a particle that is gone.
use plasmoid.Prelude.{ℕ, ◌≡◌, ap, ◌∙◌, some, none}
use plasmoid.Prelude.Map.{get, modify-absent}
use plasmoid.Pid.{Pid, pid_eq}
use plasmoid.Registry.State.{ParticleRegistry, ParticleState, with_state}
use plasmoid.Registry.Relate.{
  link_remote, monitor_remote, demonitor, monitored, forget_watcher, add_link, add_monitor,
  add_watcher, drop_monitor,
}
use plasmoid.Transport.{Wire, link, monitor, demonitor as demonitor_message, pid}
use plasmoid.Protocol.{PlasmoidProtocol, handle_peer_message}

-- An update of a particle that is gone changes nothing.
pub with_state-absent :
    (p : Pid) (f : ParticleState → ParticleState) (r : ParticleRegistry)
    → get p r.particle_states ≡ none
    → with_state p f r ≡ r
unfolding with_state
with_state-absent p f r gone =
    ap (λ m. record r { particle_states = m }) (modify-absent p f r.particle_states gone)

link_remote-absent :
    (p remote : Pid) (r : ParticleRegistry)
    → get p r.particle_states ≡ none
    → link_remote p remote r ≡ r
unfolding link_remote
link_remote-absent p remote r gone = with_state-absent p (add_link remote) r gone

monitor_remote-absent :
    (watcher p : Pid) (ref_id : ℕ) (r : ParticleRegistry)
    → get watcher r.particle_states ≡ none
    → get p r.particle_states ≡ none
    → monitor_remote watcher p ref_id r ≡ r
unfolding monitor_remote
monitor_remote-absent watcher p ref_id r elsewhere gone =
    ap (with_state p (add_watcher watcher ref_id))
      (with_state-absent watcher (add_monitor ref_id p) r elsewhere)
    ∙ with_state-absent p (add_watcher watcher ref_id) r gone

demonitor-absent :
    (watcher : Pid) (ref_id : ℕ) (r : ParticleRegistry)
    → get watcher r.particle_states ≡ none
    → demonitor watcher ref_id r ≡ r
unfolding demonitor
demonitor-absent watcher ref_id r elsewhere =
    ap
      (λ o.
        forget_watcher watcher ref_id (monitored ref_id o)
          (with_state watcher (drop_monitor ref_id) r))
      elsewhere
    ∙ with_state-absent watcher (drop_monitor ref_id) r elsewhere

module _ ⦃wire : Wire⦄ where
  -- What a node ignores, whatever its state. A peer's particle, which has no state here, that links
  -- to the pid of a particle that is gone, or monitors it, changes nothing on this node and is sent
  -- nothing. A peer's particle that gives
  -- up a monitor changes nothing either, even if its target lives here: the target keeps its entry
  -- for the watcher.
  pub handle_peer_message-ignores :
      (from target : Pid) (ref_id now : ℕ) (node : PlasmoidProtocol)
      → get from node.registry.particle_states ≡ none
      → get target node.registry.particle_states ≡ none
      → (handle_peer_message (link from (pid target)) now node ≡ some node)
        × (handle_peer_message (monitor from (pid target) ref_id) now node ≡ some node)
        × (handle_peer_message (demonitor_message from ref_id) now node ≡ some node)
  unfolding handle_peer_message
  handle_peer_message-ignores from target ref_id now node elsewhere gone = (
    ap (λ r. some (record node { registry = r }))
        (link_remote-absent target from node.registry gone),
    ap (λ r. some (record node { registry = r }))
        (monitor_remote-absent from target ref_id node.registry elsewhere gone),
    ap (λ r. some (record node { registry = r }))
        (demonitor-absent from ref_id node.registry elsewhere),
  )
