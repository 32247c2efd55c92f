-- ===== src/Host/Linked.antt =====
-- A link across nodes from the call of src/runtime/invoke.rs, by src/protocol.rs, to the death that
-- src/registry.rs publishes, src/signals.rs forwards and the linker's node applies.
use plasmoid.Prelude.{
  ℕ, ◌≡◌, refl, ap, ◌∙◌, Bool, true, false, some, List, [], ◌∷◌, ◌++◌, arith, beq_refl,
}
use plasmoid.Prelude.Map.{get, get-modify}
use plasmoid.Prelude.Set.{contains-insert}
use plasmoid.Pid.{Pid, pid_eq, EndpointId, is_local_to}
use plasmoid.Pid.Key.{NodeIds}
use plasmoid.Message.{ExitReason, is_abnormal}
use plasmoid.Registry.State.{ParticleRegistry, ParticleState, ParticleDeath, with_state}
use plasmoid.Registry.Relate.{link_remote, add_link}
use plasmoid.Registry.Exit.{exit_now, apply_inherited_exit}
use plasmoid.Registry.Symmetry.{is_alive}
use plasmoid.Registry.Deaths.{notice, exit_now-notice}
use plasmoid.Registry.Directed.{apply_inherited_exit-fatal}
use plasmoid.Signals.{Signal, forward}
use plasmoid.Signals
use plasmoid.Signals.Told.{Among, forward-notice}
use plasmoid.Transport.{Wire, Addressee}
use plasmoid.Transport
use plasmoid.Protocol.{PlasmoidProtocol, handle_peer_message, with_registry}
use plasmoid.Host.{HostState, Destination, elsewhere, resolve_local, link, link_at, send_control}

-- The state of a particle that has recorded a link to another.
get-link_remote :
    (local remote : Pid) (s : ParticleState) (r : ParticleRegistry)
    → get local r.particle_states ≡ some s
    → get local (link_remote local remote r).particle_states ≡ some (add_link remote s)
unfolding link_remote with_state
get-link_remote local remote s r e =
    ground (arith, get-modify local local (add_link remote) r.particle_states, e, beq_refl local)

same_home :
    (local remote : Pid) (r : ParticleRegistry)
    → ((link_remote local remote r).pid_gen ≡ r.pid_gen)
      × ((link_remote local remote r).deaths ≡ r.deaths)
unfolding link_remote with_state
same_home local remote r = (refl, refl)

-- The target's side: its death is published, and forwarded to the linker.
told :
    (me t : Pid) (u : ParticleState) (reason : ExitReason) (r : ParticleRegistry)
    → get t r.particle_states ≡ some u
    → is_local_to me r.pid_gen.node ≡ false
    → (r' : ParticleRegistry) × (d : ParticleDeath) × (more : List ParticleDeath) × (exit_now t
          reason
          (link_remote t me r)
        ≡ some r')
      × (r'.deaths ≡ (r.deaths ++ d ∷ []) ++ more)
      × Among (me.node, Signals.exit t me reason) (forward d)
told me t u reason r e away =
    let linked = link_remote t me r in
    let s = add_link me u in
    let (r', ended, (more, published), le) =
      exit_now-notice t s reason linked (get-link_remote t me u r e) in
    let (gen, deaths) = same_home t me r in
    (
      r',
      notice t s reason linked,
      more,
      ended,
      published ∙ ap (λ ds. (ds ++ notice t s reason linked ∷ []) ++ more) deaths,
      forward-notice t me s reason linked (contains-insert me me u.links ∙ rw (beq_refl me) refl)
          (ap (λ g. is_local_to me g.node) gen ∙ away),
    )

module _ ⦃wire : Wire⦄ where
  sent-same :
      (to : EndpointId) (msg : Transport.PeerMessage) (h : HostState) (node : PlasmoidProtocol)
      → (send_control to msg h node).registry ≡ node.registry
  unfolding send_control
  sent-same to msg h node = ground arith

  handle-link :
      (me t : Pid) (now : ℕ) (b : PlasmoidProtocol)
      → handle_peer_message (Transport.link me (Transport.pid t)) now b
        ≡ some (record b { registry = link_remote t me b.registry })
  unfolding handle_peer_message
  handle-link me t now b = refl

  handle-exit :
      (from to : Pid) (reason : ExitReason) (now : ℕ) (a : PlasmoidProtocol)
      → handle_peer_message (Transport.exit from to reason) now a
        ≡ with_registry a (apply_inherited_exit to from reason a.registry)
  unfolding handle_peer_message
  handle-exit from to reason now a = refl

module _ ⦃wire : Wire⦄ ⦃ids : NodeIds⦄ where
  -- The linker's side: it records its half and sends the link.
  link-elsewhere :
      (dest : Destination) (t : Pid) (h : HostState) (a : PlasmoidProtocol) (to : EndpointId)
      → resolve_local dest h ≡ elsewhere to (Transport.pid t)
      → h.has_registry ≡ true
      → link dest h a
        ≡ send_control to
            (Transport.link h.pid (Transport.pid t))
            h
            (record a { registry = link_remote h.pid t a.registry })
  unfolding link
  link-elsewhere dest t h a to away has = ap (λ target. link_at target h a) away ∙ rw has refl

  -- What comes of a link across nodes, if the linker traps exits or not.
  abbrev pub Carried :
      Destination
      → Pid
      → Bool
      → ExitReason
      → HostState
      → PlasmoidProtocol
      → PlasmoidProtocol
      → EndpointId
      → ℕ
      → ℕ
      → Type 0
  Carried dest t traps reason h a b to now later =
      (link dest h a
        ≡ send_control to (Transport.link h.pid (Transport.pid t)) h
            (record a { registry = link_remote h.pid t a.registry }))
      × (handle_peer_message (Transport.link h.pid (Transport.pid t)) now b
          ≡ some (record b { registry = link_remote t h.pid b.registry }))
      × ((r' : ParticleRegistry) × (d : ParticleDeath) × (more : List ParticleDeath) × (exit_now t
              reason (link_remote t h.pid b.registry)
            ≡ some r')
          × (r'.deaths ≡ (b.registry.deaths ++ d ∷ []) ++ more)
          × Among (h.pid.node, Signals.exit t h.pid reason) (forward d))
      × ((a' : PlasmoidProtocol) × (handle_peer_message (Transport.exit t h.pid reason) later
              (link dest h a)
            ≡ some a')
          × (is_alive h.pid a'.registry ≡ traps))

  -- A link across nodes carries a death across. A live particle links to the pid of a live particle
  -- of another node, which handles the link that it was sent. Then both halves are recorded; if the
  -- target later exits from such a state for an abnormal reason, then its exit ends and the first death
  -- that it publishes is forwarded to the linker's node as an exit signal; and if that signal reaches
  -- the linker in the state that its call left, then the linker dies too, unless it traps exits.
  pub link-carries_death :
      (dest : Destination) (t : Pid) (s u : ParticleState) (reason : ExitReason) (h : HostState)
      (a b : PlasmoidProtocol) (to : EndpointId) (now later : ℕ)
      → resolve_local dest h ≡ elsewhere to (Transport.pid t)
      → h.has_registry ≡ true
      → get h.pid a.registry.particle_states ≡ some s
      → get t b.registry.particle_states ≡ some u
      → is_local_to h.pid b.registry.pid_gen.node ≡ false
      → is_abnormal reason ≡ true
      → Carried dest t s.trap_exit reason h a b to now later
  link-carries_death dest t s u reason h a b to now later away has mine theirs foreign fatal =
      let half = record a { registry = link_remote h.pid t a.registry } in
      let linked = link-elsewhere dest t h a to away has in
      let kept : (link dest h a).registry ≡ link_remote h.pid t a.registry =
        ap (λ (n : PlasmoidProtocol). n.registry) linked
        ∙ sent-same to (Transport.link h.pid (Transport.pid t)) h half in
      let state =
        ap (λ (r : ParticleRegistry). get h.pid r.particle_states) kept
        ∙ get-link_remote h.pid t s a.registry mine in
      let (r', ended, fate, le) =
        apply_inherited_exit-fatal h.pid t (add_link t s) (link dest h a).registry state reason in
      (
        linked,
        handle-link h.pid t now b,
        told h.pid t u reason b.registry theirs foreign,
        (
          record (link dest h a) { registry = r' },
          handle-exit t h.pid reason later (link dest h a)
              ∙ ap (with_registry (link dest h a)) ended,
          ground (arith, fate, fatal),
        ),
      )
