-- ===== src/Host/Reach.antt =====
-- src/runtime/invoke.rs and src/protocol.rs together: what a host function sends to another node
-- does there what the host function would do on that node.
use plasmoid.Prelude.{
  ℕ, ◌≡◌, refl, sym, ap, append-nil, ◌∙◌, true, Option, none, some, [], ◌∷◌, ◌++◌, nat_eq,
}
use plasmoid.Pid.{Pid, EndpointId}
use plasmoid.Pid.Key.{NodeIds}
use plasmoid.Message.{ExitReason}
use plasmoid.Mailbox.{Bytes}
use plasmoid.Transport.{PeerMessage, Addressee, Envelope, Wire}
use plasmoid.Transport
use plasmoid.Transport.Frame.{encode_frame, read_frame, frame}
use plasmoid.Transport.Frame.Bounds.{read_frame-encode_frame}
use plasmoid.Transport.Links.Queues.{IsLinked, queued, send-queues}
use plasmoid.Protocol.{
  PlasmoidProtocol, handle_peer_message, resolve, deliver_envelope, deliver_resolved,
  signal_resolved,
}
use plasmoid.Host.{
  HostState, Destination, Addressed, LocalTarget, here, elsewhere, resolve_local, resolve_named,
  send_control, deliver_at, deliver_to, exit_signal, signal_at, signal_here, deliver_here,
}
use plasmoid.Host.Agreement.{as_local, resolve_local-agrees, resolve_named-resolve}

-- What every sending host function does for a target elsewhere: its message is the last in the
-- queue of the target's node, from where it is read as it was sent, and nothing else happens.
module _ ⦃wire : Wire⦄ where
  abbrev pub Sent : EndpointId → PeerMessage → Bytes → PlasmoidProtocol → PlasmoidProtocol → Type 0
  Sent to msg bytes a a' =
      (queued to a'.peers ≡ queued to a.peers ++ bytes ∷ [])
      × (read_frame bytes ≡ frame msg [])
      × (a' ≡ record a { peers = a'.peers })

  send_control-Sent :
      (to : EndpointId) (msg : PeerMessage) (bytes : Bytes) (h : HostState) (a : PlasmoidProtocol)
      → h.has_peers ≡ true
      → IsLinked a.peers
      → encode_frame msg ≡ some bytes
      → Sent to msg bytes a (send_control to msg h a)
  unfolding send_control
  send_control-Sent to msg bytes h a has ok e = rw has (
    (send-queues to msg bytes a.peers ok e).1,
    ap read_frame (sym (append-nil bytes)) ∙ read_frame-encode_frame msg bytes [] e,
    refl,
  )

  handle-deliver :
      (e : Envelope) (now : ℕ) (b : PlasmoidProtocol)
      → handle_peer_message (Transport.deliver e) now b
        ≡ some (record b { registry = deliver_envelope e b.registry })
  unfolding handle_peer_message
  handle-deliver e now b = refl

  handle-exit_signal :
      (from : Pid) (to : Addressee) (reason : ExitReason) (now : ℕ) (b : PlasmoidProtocol)
      → handle_peer_message (Transport.exit_signal from to reason) now b
        ≡ signal_resolved (resolve to b.registry) from reason b
  unfolding handle_peer_message
  handle-exit_signal from to reason now b = refl

  deliver_here-resolved :
      (o : Option Pid) (e : Envelope) (hb : HostState) (b : PlasmoidProtocol)
      → hb.has_registry ≡ true
      → deliver_here o e.ref_id e.payload hb b
        ≡ record b { registry = deliver_resolved o e b.registry }
  deliver_here-resolved none e hb b reg = refl
  deliver_here-resolved (some p) e hb b reg = rw reg refl

  deliver_here-deliver_envelope :
      (e : Envelope) (hb : HostState) (b : PlasmoidProtocol)
      → hb.has_registry ≡ true
      → deliver_here (resolve e.target b.registry) e.ref_id e.payload hb b
        ≡ record b { registry = deliver_envelope e b.registry }
  unfolding deliver_envelope
  deliver_here-deliver_envelope e hb b reg =
      deliver_here-resolved (resolve e.target b.registry) e hb b reg

  signal_at-here :
      (t : Addressed) (reason : ExitReason) (hb : HostState) (b : PlasmoidProtocol)
      → hb.has_registry ≡ true
      → signal_at (here t) reason hb b ≡ signal_here (resolve_named t hb b.registry) reason hb b
  signal_at-here t reason hb b reg = rw reg refl

  signal_here-resolved :
      (o : Option Pid) (from : Pid) (reason : ExitReason) (hb : HostState) (b : PlasmoidProtocol)
      → hb.pid ≡ from
      → signal_here o reason hb b ≡ signal_resolved o from reason b
  signal_here-resolved none from reason hb b same = refl
  signal_here-resolved (some p) from reason hb b same = rw same refl

module _ ⦃wire : Wire⦄ ⦃ids : NodeIds⦄ where
  deliver_to-at :
      (dest : Destination) (ref_id : Option ℕ) (msg : Bytes) (h : HostState)
      (node : PlasmoidProtocol) {t : LocalTarget}
      → resolve_local dest h ≡ t
      → deliver_to dest ref_id msg h node ≡ deliver_at t ref_id msg h node
  unfolding deliver_to
  deliver_to-at dest ref_id msg h node e = ap (λ t. deliver_at t ref_id msg h node) e

  exit_signal-at :
      (dest : Destination) (reason : ExitReason) (h : HostState) (node : PlasmoidProtocol)
      {t : LocalTarget}
      → resolve_local dest h ≡ t
      → exit_signal dest reason h node ≡ signal_at t reason h node
  unfolding exit_signal
  exit_signal-at dest reason h node e = ap (λ t. signal_at t reason h node) e

  -- A send across nodes is a send on the target's node. For a destination that `send` or `send_ref`
  -- finds elsewhere, by a pid or by a node and a name, given that the particle has peer links, each
  -- with its own queue, and that the envelope fits a frame: the envelope is put last into the queue
  -- of that node, no other part of the sending node changes, its frame is read as that envelope,
  -- and handling it changes the target's node exactly as the same call by a particle there would.
  pub deliver_to-reaches :
      (dest : Destination) (ref_id : Option ℕ) (msg bytes : Bytes) (h hb : HostState)
      (a b : PlasmoidProtocol) (to : EndpointId) (addressee : Addressee) (now : ℕ)
      → resolve_local dest h ≡ elsewhere to addressee
      → h.has_peers ≡ true
      → IsLinked a.peers
      → encode_frame
          (Transport.deliver (record { target = addressee; ref_id = ref_id; payload = msg }))
        ≡ some bytes
      → hb.endpoint ≡ some to
      → hb.has_registry ≡ true
      → Sent to
          (Transport.deliver (record { target = addressee; ref_id = ref_id; payload = msg }))
          bytes
          a
          (deliver_to dest ref_id msg h a)
        × (handle_peer_message
              (Transport.deliver (record { target = addressee; ref_id = ref_id; payload = msg }))
              now
              b
            ≡ some (deliver_to dest ref_id msg hb b))
  deliver_to-reaches dest ref_id msg bytes h hb a b to addressee now away has ok e there reg =
      let env : Envelope = record { target = addressee; ref_id = ref_id; payload = msg } in
      let at_home = resolve_local-agrees dest h hb to addressee away there in
      (
        rw (deliver_to-at dest ref_id msg h a away)
            (send_control-Sent to (Transport.deliver env) bytes h a has ok e),
        handle-deliver env now b
            ∙ ap some (
                sym (
                  deliver_to-at dest ref_id msg hb b at_home
                  ∙ ap (λ o. deliver_here o ref_id msg hb b)
                      (resolve_named-resolve addressee hb b.registry reg)
                  ∙ deliver_here-deliver_envelope env hb b reg)),
      )

  -- So is an exit signal: for a destination that `exit_signal` finds elsewhere, with links as above,
  -- its message is put last into the queue of that node, no other part of the sending node changes,
  -- its frame is read as sent, and handling it changes the target's node exactly as the same call
  -- by a particle there with the sender's pid would, its cascade and a missing target included.
  pub exit_signal-reaches :
      (dest : Destination) (reason : ExitReason) (bytes : Bytes) (h hb : HostState)
      (a b : PlasmoidProtocol) (to : EndpointId) (addressee : Addressee) (now : ℕ)
      → resolve_local dest h ≡ elsewhere to addressee
      → h.has_peers ≡ true
      → IsLinked a.peers
      → encode_frame (Transport.exit_signal h.pid addressee reason) ≡ some bytes
      → hb.endpoint ≡ some to
      → hb.has_registry ≡ true
      → hb.pid ≡ h.pid
      → (exit_signal dest reason h a
          ≡ some (send_control to (Transport.exit_signal h.pid addressee reason) h a))
        × Sent to
            (Transport.exit_signal h.pid addressee reason)
            bytes
            a
            (send_control to (Transport.exit_signal h.pid addressee reason) h a)
        × (handle_peer_message (Transport.exit_signal h.pid addressee reason) now b
            ≡ exit_signal dest reason hb b)
  exit_signal-reaches dest reason bytes h hb a b to addressee now away has ok e there reg same =
      let at_home = resolve_local-agrees dest h hb to addressee away there in
      (
        exit_signal-at dest reason h a away,
        send_control-Sent to (Transport.exit_signal h.pid addressee reason) bytes h a has ok e,
        handle-exit_signal h.pid addressee reason now b
            ∙ sym (
                exit_signal-at dest reason hb b at_home
                ∙ signal_at-here (as_local addressee) reason hb b reg
                ∙ ap (λ o. signal_here o reason hb b)
                    (resolve_named-resolve addressee hb b.registry reg)
                ∙ signal_here-resolved (resolve addressee b.registry) h.pid reason hb b same),
      )
