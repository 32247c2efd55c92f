-- ===== src/Host/Dead.antt =====
-- src/runtime/invoke.rs: what a particle learns when it links to or monitors one that is gone.
use plasmoid.Prelude.{ℕ, ◌≡◌, refl, ap, ◌∙◌, some, none, true, arith, next_u64, String, nat_beq_iff}
use plasmoid.Prelude.Map.{get, contains_key-get, get-modify}
use plasmoid.Pid.{Pid, pid_eq}
use plasmoid.Pid.Key.{NodeIds}
use plasmoid.Message.{no_proc}
use plasmoid.Registry.State.{ParticleRegistry, ParticleState, with_state}
use plasmoid.Registry.Send.{deliver_exit, deliver_down, get_by_name}
use plasmoid.Registry.Relate
use plasmoid.Registry.Relate.{monitor_with_ref, add_monitor, add_watcher}
use plasmoid.Transport.{Wire}
use plasmoid.Protocol.{PlasmoidProtocol}
use plasmoid.Protocol.Signal.{with_state-absent}
use plasmoid.Host.{
  HostState, pid_handle, local_named, LocalTarget, Destination, here, Addressed, resolve_local,
  link, link_at, link_here, monitor, monitor_at, monitor_here, resolve_named, on_registry,
}

link_here-absent :
    (me target : Pid) (r : ParticleRegistry)
    → get target r.particle_states ≡ none
    → link_here (some target) me r ≡ deliver_exit me me no_proc r
unfolding Relate.link
link_here-absent me target r gone =
    ground (arith, contains_key-get target r.particle_states, contains_key-get me r.particle_states)

get-with_state-absent :
    (p q : Pid) (f : ParticleState → ParticleState) (r : ParticleRegistry)
    → get q r.particle_states ≡ none
    → get q (with_state p f r).particle_states ≡ none
unfolding with_state
get-with_state-absent p q f r gone = ground (arith, get-modify p q f r.particle_states)

monitor_with_ref-absent :
    (me target : Pid) (ref_id : ℕ) (r : ParticleRegistry)
    → get target r.particle_states ≡ none
    → monitor_with_ref me target ref_id r ≡ with_state me (add_monitor ref_id target) r
unfolding monitor_with_ref
monitor_with_ref-absent me target ref_id r gone =
    with_state-absent target (add_watcher me ref_id) (with_state me (add_monitor ref_id target) r)
      (get-with_state-absent me target (add_monitor ref_id target) r gone)

on_registry-has :
    (h : HostState) (f : ParticleRegistry → ParticleRegistry) (node : PlasmoidProtocol)
    → h.has_registry ≡ true
    → on_registry h f node ≡ record node { registry = f node.registry }
on_registry-has h f node has = rw has refl

resolve_named-pid :
    (p : Pid) (h : HostState) (r : ParticleRegistry) → resolve_named (Addressed.pid p) h r ≡ some p
unfolding resolve_named
resolve_named-pid p h r = refl

resolve_named-name :
    (n : String) (h : HostState) (r : ParticleRegistry)
    → h.has_registry ≡ true
    → resolve_named (Addressed.name n) h r ≡ get_by_name n r
unfolding resolve_named
resolve_named-name n h r has = rw has refl

module _ ⦃wire : Wire⦄ ⦃ids : NodeIds⦄ where
  link-at :
      (dest : Destination) (h : HostState) (node : PlasmoidProtocol) {t : LocalTarget}
      → resolve_local dest h ≡ t
      → link dest h node ≡ link_at t h node
  unfolding link
  link-at dest h node e = ap (λ t. link_at t h node) e

  -- The reference is the particle's next one.
  monitor-at :
      (dest : Destination) (h : HostState) (node : PlasmoidProtocol) {t : LocalTarget}
      → resolve_local dest (record h { next_ref = next_u64 h.next_ref }) ≡ t
      → (monitor dest h node).2
        ≡ monitor_at t h.next_ref (record h { next_ref = next_u64 h.next_ref }) node
  unfolding monitor
  monitor-at dest h node e =
      let h' = record h { next_ref = next_u64 h.next_ref } in
      ap (λ t. monitor_at t h.next_ref h' node) e

  resolve_local-here :
      (p : Pid) (h : HostState)
      → h.endpoint ≡ some p.node
      → resolve_local (pid_handle (some p)) h ≡ here (Addressed.pid p)
  unfolding resolve_local
  resolve_local-here p h home = rw home (ground (arith, nat_beq_iff p.node p.node))

  resolve_local-named :
      (n : String) (h : HostState) → resolve_local (local_named n) h ≡ here (Addressed.name n)
  unfolding resolve_local
  resolve_local-named n h = refl

  -- Links and monitors differ for a pid of this node whose particle is gone. The linker is sent an
  -- exit message with `NoProc`, and nothing else changes. The watcher is sent nothing: all that
  -- changes is that its state keeps the monitor. A name without a particle is answered with a `Down`
  -- message that carries `NoProc`.
  pub dead_here :
      (target : Pid) (name : String) (h : HostState) (node : PlasmoidProtocol)
      → h.endpoint ≡ some target.node
      → h.has_registry ≡ true
      → get target node.registry.particle_states ≡ none
      → get_by_name name node.registry ≡ none
      → (link (pid_handle (some target)) h node
          ≡ record node { registry = deliver_exit h.pid h.pid no_proc node.registry })
        × ((monitor (pid_handle (some target)) h node).2 ≡ record node {
          registry = with_state h.pid (add_monitor h.next_ref target) node.registry;
        })
        × ((monitor (local_named name) h node).2
            ≡ record node { registry = deliver_down h.pid h.pid h.next_ref no_proc node.registry })
  dead_here target name h node home has gone unnamed =
      let h' = record h { next_ref = next_u64 h.next_ref } in
      let with_new = λ (r : ParticleRegistry). record node { registry = r } in
      (
        link-at (pid_handle (some target)) h node (resolve_local-here target h home)
            ∙ on_registry-has h (λ r. link_here (resolve_named (Addressed.pid target) h r) h.pid r)
                node has
            ∙ ap with_new (
                ap (λ o. link_here o h.pid node.registry) (resolve_named-pid target h node.registry)
                ∙ link_here-absent h.pid target node.registry gone),
        monitor-at (pid_handle (some target)) h node (resolve_local-here target h' home)
            ∙ on_registry-has h'
                (λ r. monitor_here (resolve_named (Addressed.pid target) h' r) h.pid h.next_ref r)
                node has
            ∙ ap with_new (
                ap (λ o. monitor_here o h.pid h.next_ref node.registry)
                  (resolve_named-pid target h' node.registry)
                ∙ monitor_with_ref-absent h.pid target h.next_ref node.registry gone),
        monitor-at (local_named name) h node (resolve_local-named name h')
            ∙ on_registry-has h'
                (λ r. monitor_here (resolve_named (Addressed.name name) h' r) h.pid h.next_ref r)
                node has
            ∙ ap with_new (
                ap (λ o. monitor_here o h.pid h.next_ref node.registry)
                  (resolve_named-name name h' node.registry has ∙ unnamed)),
      )
