-- ===== src/Host/Monitored.antt =====
-- A monitor across nodes from the call of src/runtime/invoke.rs, by src/protocol.rs, to the death that
-- src/registry.rs publishes, src/signals.rs forwards and the watcher's mailbox receives.
use plasmoid.Prelude.{
  ℕ, ◌≡◌, refl, ap, ◌∙◌, Bool, true, false, none, some, List, [], ◌∷◌, ◌++◌, arith, nat_eq,
  beq_refl,
}
use plasmoid.Prelude.Map.{get, get-modify}
use plasmoid.Pid.{Pid, pid_eq, pid_beq_iff, EndpointId, is_local_to}
use plasmoid.Pid.Key.{NodeIds}
use plasmoid.Message.{ExitReason}
use plasmoid.Message
use plasmoid.Mailbox.{Mailbox, Wake, Received, got, push_system}
use plasmoid.Mailbox
use plasmoid.Mailbox.Receive.{recv-push_system}
use plasmoid.Registry.State.{
  ParticleRegistry, ParticleState, ParticleDeath, with_state, with_mailbox,
}
use plasmoid.Registry.Send.{deliver_down, send_system}
use plasmoid.Registry.Relate.{monitor_remote, add_monitor, add_watcher}
use plasmoid.Registry.Exit.{exit_now}
use plasmoid.Registry.Deaths.{notice, exit_now-notice}
use plasmoid.Signals.{Signal, forward}
use plasmoid.Signals
use plasmoid.Signals.Told.{Among, forward-monitored}
use plasmoid.Transport.{Wire, Addressee}
use plasmoid.Transport
use plasmoid.Protocol.{PlasmoidProtocol, handle_peer_message}
use plasmoid.Host.{
  HostState, Destination, elsewhere, resolve_local, monitor, monitor_at, send_control, next_ref,
}

-- The state of a target that a particle without a state here watches.
get-monitor_remote :
    (watcher t : Pid) (ref_id : ℕ) (u : ParticleState) (r : ParticleRegistry)
    → get t r.particle_states ≡ some u
    → get watcher r.particle_states ≡ none
    → get t (monitor_remote watcher t ref_id r).particle_states
      ≡ some (add_watcher watcher ref_id u)
unfolding monitor_remote with_state
get-monitor_remote watcher t ref_id u r e foreign = ground (
  arith,
  get-modify t t (add_watcher watcher ref_id)
      (with_state watcher (add_monitor ref_id t) r).particle_states,
  get-modify watcher t (add_monitor ref_id t) r.particle_states,
  pid_beq_iff watcher t,
  beq_refl t,
  e,
  foreign,
)

same_home :
    (watcher t : Pid) (ref_id : ℕ) (r : ParticleRegistry)
    → ((monitor_remote watcher t ref_id r).pid_gen ≡ r.pid_gen)
      × ((monitor_remote watcher t ref_id r).deaths ≡ r.deaths)
unfolding monitor_remote with_state
same_home watcher t ref_id r = (refl, refl)

-- The target's side: its death is published, and forwarded to the watcher with its reference.
told :
    (me t : Pid) (ref_id : ℕ) (u : ParticleState) (reason : ExitReason) (r : ParticleRegistry)
    → get t r.particle_states ≡ some u
    → get me r.particle_states ≡ none
    → is_local_to me r.pid_gen.node ≡ false
    → (r' : ParticleRegistry) × (d : ParticleDeath) × (more : List ParticleDeath) × (exit_now t
          reason
          (monitor_remote me t ref_id r)
        ≡ some r')
      × (r'.deaths ≡ (r.deaths ++ d ∷ []) ++ more)
      × Among (me.node, Signals.down t me ref_id reason) (forward d)
told me t ref_id u reason r e foreign away =
    let watched = monitor_remote me t ref_id r in
    let s = add_watcher me ref_id u in
    let (r', ended, (more, published), le) =
      exit_now-notice t s reason watched (get-monitor_remote me t ref_id u r e foreign) in
    let (gen, deaths) = same_home me t ref_id r in
    (
      r',
      notice t s reason watched,
      more,
      ended,
      published ∙ ap (λ ds. (ds ++ notice t s reason watched ∷ []) ++ more) deaths,
      forward-monitored t me ref_id s reason watched (u.monitored_by, [], refl)
          (ap (λ g. is_local_to me g.node) gen ∙ away),
    )

-- The watcher's side: the signal is the next that it receives.
received :
    (me t : Pid) (ref_id : ℕ) (reason : ExitReason) (s : ParticleState) (m : Mailbox)
    (r : ParticleRegistry)
    → get me r.particle_states ≡ some s
    → get s.mailbox r.mailboxes ≡ some m
    → get s.mailbox (deliver_down me t ref_id reason r).mailboxes
      ≡ some (push_system (Message.down t ref_id reason) m)
unfolding deliver_down send_system with_mailbox
received me t ref_id reason s m r e mail = rw e (
    ground (
      arith,
      get-modify s.mailbox s.mailbox (push_system (Message.down t ref_id reason)) r.mailboxes,
      mail,
      beq_refl s.mailbox,
    ))

module _ ⦃wire : Wire⦄ where
  handle-monitor :
      (me t : Pid) (ref_id now : ℕ) (b : PlasmoidProtocol)
      → handle_peer_message (Transport.monitor me (Transport.pid t) ref_id) now b
        ≡ some (record b { registry = monitor_remote me t ref_id b.registry })
  unfolding handle_peer_message
  handle-monitor me t ref_id now b = refl

  handle-down :
      (from to : Pid) (ref_id : ℕ) (reason : ExitReason) (now : ℕ) (a : PlasmoidProtocol)
      → handle_peer_message (Transport.down from to ref_id reason) now a
        ≡ some (record a { registry = deliver_down to from ref_id reason a.registry })
  unfolding handle_peer_message
  handle-down from to ref_id reason now a = refl

module _ ⦃wire : Wire⦄ ⦃ids : NodeIds⦄ where
  -- The watcher's call: it records its half, sends the monitor, and returns the reference.
  monitor-elsewhere :
      (dest : Destination) (t : Pid) (h : HostState) (a : PlasmoidProtocol) (to : EndpointId)
      → resolve_local dest (next_ref h).1 ≡ elsewhere to (Transport.pid t)
      → h.has_registry ≡ true
      → monitor dest h a ≡ (
        h.next_ref,
        (next_ref h).1,
        send_control to
            (Transport.monitor h.pid (Transport.pid t) h.next_ref)
            (next_ref h).1
            (record a { registry = monitor_remote h.pid t h.next_ref a.registry }),
      )
  unfolding monitor next_ref
  monitor-elsewhere dest t h a to away has =
      ap (λ target. (h.next_ref, (next_ref h).1, monitor_at target h.next_ref (next_ref h).1 a))
        away
      ∙ rw has refl

  -- What comes of a monitor across nodes.
  abbrev pub Monitored :
      Destination
      → Pid
      → ExitReason
      → HostState
      → PlasmoidProtocol
      → PlasmoidProtocol
      → PlasmoidProtocol
      → ParticleState
      → Mailbox
      → EndpointId
      → ℕ
      → ℕ
      → Type 0
  Monitored dest t reason h a b a' s m to now later =
      (monitor dest h a ≡ (
        h.next_ref,
        (next_ref h).1,
        send_control to (Transport.monitor h.pid (Transport.pid t) h.next_ref) (next_ref h).1
            (record a { registry = monitor_remote h.pid t h.next_ref a.registry }),
      ))
      × (handle_peer_message (Transport.monitor h.pid (Transport.pid t) h.next_ref) now b
          ≡ some (record b { registry = monitor_remote h.pid t h.next_ref b.registry }))
      × ((r' : ParticleRegistry) × (d : ParticleDeath) × (more : List ParticleDeath) × (exit_now t
              reason (monitor_remote h.pid t h.next_ref b.registry)
            ≡ some r')
          × (r'.deaths ≡ (b.registry.deaths ++ d ∷ []) ++ more)
          × Among (h.pid.node, Signals.down t h.pid h.next_ref reason) (forward d))
      × ((a'' : PlasmoidProtocol) × (m' : Mailbox) × (handle_peer_message
              (Transport.down t h.pid h.next_ref reason) later a'
            ≡ some a'')
          × (get s.mailbox a''.registry.mailboxes ≡ some m')
          × ((timeout : Bool) (wakes : List Wake)
              → Mailbox.recv timeout wakes m' ≡ (got (Mailbox.down t h.next_ref reason), m)))

  -- A monitor across nodes reports a death. A particle monitors the pid of a live particle of another
  -- node, where it has no state of its own, and that node handles the monitor that it was sent. Then
  -- both halves are recorded under the reference that the call returned; if the target exits from such
  -- a state, with whatever reason, normal or not, its exit ends, and the first death that it publishes
  -- is forwarded to the watcher's node with that reference and reason; and when that node, whatever has
  -- become of it, handles it while the watcher lives, it is what the watcher receives next, with or
  -- without a timeout, before all that its mailbox holds.
  pub monitor-carries_death :
      (dest : Destination) (t : Pid) (s u : ParticleState) (m : Mailbox) (reason : ExitReason)
      (h : HostState) (a b a' : PlasmoidProtocol) (to : EndpointId) (now later : ℕ)
      → resolve_local dest (next_ref h).1 ≡ elsewhere to (Transport.pid t)
      → h.has_registry ≡ true
      → get t b.registry.particle_states ≡ some u
      → get h.pid b.registry.particle_states ≡ none
      → is_local_to h.pid b.registry.pid_gen.node ≡ false
      → get h.pid a'.registry.particle_states ≡ some s
      → get s.mailbox a'.registry.mailboxes ≡ some m
      → Monitored dest t reason h a b a' s m to now later
  monitor-carries_death dest t s u m reason h a b a' to now later away has theirs none_there foreign
        mine mail =
      (
        monitor-elsewhere dest t h a to away has,
        handle-monitor h.pid t h.next_ref now b,
        told h.pid t h.next_ref u reason b.registry theirs none_there foreign,
        (
          record a' { registry = deliver_down h.pid t h.next_ref reason a'.registry },
          push_system (Message.down t h.next_ref reason) m,
          handle-down t h.pid h.next_ref reason later a',
          received h.pid t h.next_ref reason s m a'.registry mine mail,
          λ timeout wakes. recv-push_system (Message.down t h.next_ref reason) timeout wakes m,
        ),
      )
