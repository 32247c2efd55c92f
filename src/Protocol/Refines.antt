-- ===== src/Protocol/Refines.antt =====
-- src/protocol.rs and src/registry.rs: that handling peers' messages is calling the registry's
-- methods, so that what holds of their histories holds under anything that arrives.
use plasmoid.Prelude.{
  ℕ, ◌≡◌, refl, sym, ◌∙◌, subst, false, Option, none, some, List, [], ◌∷◌, Bool-cases, inl, inr,
  All, nat_eq,
}
use plasmoid.Pid.{Pid, pid_eq, EndpointId, is_local_to}
use plasmoid.Message.{ExitReason}
use plasmoid.Registry.State.{ParticleRegistry}
use plasmoid.Cluster.{learn}
use plasmoid.Registry.Sound.{IsSound}
use plasmoid.Registry.History.{Reach, here, then_step, links_remote, unlinks_remote, demonitors}
use plasmoid.Transport.{PeerMessage, Addressee, Envelope, EndpointAddr, Wire}
use plasmoid.Transport
use plasmoid.Protocol.{
  PlasmoidProtocol, handle_peer_message, handle_message_link, resolve, signal_resolved,
  link_resolved, unlink_resolved, monitor_resolved, with_registry, on_announce, welcome,
  answer_sender, is_missing, ids_of, noted,
}
use plasmoid.Protocol.Follows.{
  Follows, Step-Follows, deliver_down-Follows, monitor_remote-Follows, apply_inherited_exit-Follows,
  apply_directed_exit-Follows, deliver_resolved-Follows,
}

-- The links that a message asks for are those of another node's particle.
abbrev pub IsForeign : EndpointId → PeerMessage → Type 0
IsForeign me (Transport.link from to) = is_local_to from me ≡ false
IsForeign me (Transport.unlink from to) = is_local_to from me ≡ false
IsForeign me _ = Unit {0}

-- A node whose registry follows on from another's, with its other parts as they may be.
abbrev pub NodeFollows : EndpointId → PlasmoidProtocol → Option PlasmoidProtocol → Type 0
NodeFollows me node o =
    (node' : PlasmoidProtocol) × (o ≡ some node')
    × Reach me node.registry node'.registry
    × IsSound me node'.registry

with_registry-Follows :
    (me : EndpointId) (node : PlasmoidProtocol) (o : Option ParticleRegistry)
    → Follows me node.registry o
    → NodeFollows me node (with_registry node o)
with_registry-Follows me node o (r', e, path, ok) =
    (record node { registry = r' }, rw e refl, path, ok)

module _ (me : EndpointId) (node : PlasmoidProtocol) (h : IsSound me node.registry) where
  same_registry :
      (node' : PlasmoidProtocol) → node'.registry ≡ node.registry → NodeFollows me node (some node')
  same_registry node' e =
      (node', refl, subst (Reach me node.registry) (sym e) here, subst (IsSound me) (sym e) h)

  signal_resolved-Follows :
      (o : Option Pid) (from : Pid) (reason : ExitReason)
      → NodeFollows me node (signal_resolved o from reason node)
  signal_resolved-Follows none from reason = same_registry node refl
  signal_resolved-Follows (some target) from reason =
      with_registry-Follows me node _
        (apply_directed_exit-Follows me node.registry h target from reason)

  unlink_resolved-Follows :
      (o : Option Pid) (from : Pid)
      → is_local_to from me ≡ false
      → NodeFollows me node (some (unlink_resolved o from node))
  unlink_resolved-Follows none from away = same_registry node refl
  unlink_resolved-Follows (some target) from away =
      with_registry-Follows me node _
        (Step-Follows me node.registry h (unlinks_remote target from away refl))

module _ ⦃wire : Wire⦄ (me : EndpointId) (node : PlasmoidProtocol)
    (h : IsSound me node.registry) where
  link_resolved-Follows :
      (o : Option Pid) (from : Pid)
      → is_local_to from me ≡ false
      → NodeFollows me node (some (link_resolved o from node))
  link_resolved-Follows none from away = same_registry me node h _ refl
  link_resolved-Follows (some target) from away =
      with_registry-Follows me node _
        (Step-Follows me node.registry h (links_remote target from away refl))

  monitor_resolved-Follows :
      (o : Option Pid) (watcher : Pid) (ref_id : ℕ)
      → NodeFollows me node (some (monitor_resolved o watcher ref_id node))
  monitor_resolved-Follows none watcher ref_id = same_registry me node h _ refl
  monitor_resolved-Follows (some target) watcher ref_id =
      with_registry-Follows me node _
        (monitor_remote-Follows me node.registry h watcher target ref_id)

  welcome-registry :
      (ns : List EndpointId) (n : PlasmoidProtocol) → (welcome ns n).registry ≡ n.registry
  welcome-registry [] n = refl
  welcome-registry (m ∷ ns) n = refl

  answer_sender-registry :
      (announced : List EndpointId) (n : PlasmoidProtocol)
      → (answer_sender announced n).registry ≡ n.registry
  answer_sender-registry [] n = refl
  answer_sender-registry (sender ∷ others) n =
      elim (Bool-cases (is_missing sender (sender ∷ others) n.cluster.members)) [
        | inl more ↦ rw more refl
        | inr agreed ↦ rw agreed refl
      ]

  on_announce-registry :
      (nodes : List EndpointAddr) (now : ℕ) → (on_announce nodes now node).registry ≡ node.registry
  unfolding on_announce
  on_announce-registry nodes now =
      let learned = (learn (ids_of nodes) now node.cluster).0 in
      answer_sender-registry (ids_of nodes) (welcome learned (noted nodes now node))
      ∙ welcome-registry learned (noted nodes now node)

  handle-Follows :
      (msg : PeerMessage) (now : ℕ)
      → IsForeign me msg
      → NodeFollows me node (handle_peer_message msg now node)
  unfolding handle_peer_message
  handle-Follows (Transport.deliver e) now f =
      with_registry-Follows me node _
        (deliver_resolved-Follows me node.registry h (resolve e.target node.registry) e)
  handle-Follows (Transport.announce nodes) now f =
      same_registry me node h _ (on_announce-registry nodes now)
  handle-Follows (Transport.link from to) now f =
      link_resolved-Follows (resolve to node.registry) from f
  handle-Follows (Transport.unlink from to) now f =
      unlink_resolved-Follows me node h (resolve to node.registry) from f
  handle-Follows (Transport.monitor watcher target ref_id) now f =
      monitor_resolved-Follows (resolve target node.registry) watcher ref_id
  handle-Follows (Transport.demonitor watcher ref_id) now f =
      with_registry-Follows me node _
        (Step-Follows me node.registry h (demonitors watcher ref_id refl))
  handle-Follows (Transport.exit from to reason) now f =
      with_registry-Follows me node _
        (apply_inherited_exit-Follows me node.registry h to from reason)
  handle-Follows (Transport.exit_signal from to reason) now f =
      signal_resolved-Follows me node h (resolve to node.registry) from reason
  handle-Follows (Transport.down from to ref_id reason) now f =
      with_registry-Follows me node _
        (deliver_down-Follows me node.registry h to from ref_id reason)
  handle-Follows (Transport.lost_connection reporter lost op_id) now f =
      same_registry me node h _ refl
  handle-Follows (Transport.remove_connection from) now f = same_registry me node h _ refl

Reach-append :
    (me : EndpointId) (r s t : ParticleRegistry) → Reach me r s → Reach me s t → Reach me r t
Reach-append me r s t before here = before
Reach-append me r s t before (then_step {s = u} after step) =
    then_step (Reach-append me r s u before after) step

module _ ⦃wire : Wire⦄ where
  -- Handling the messages of a peer link implements the registry's methods. Whatever messages
  -- arrive at a node with a sound registry, in whatever order and at whatever times, provided that
  -- those that link or unlink come from another node's particle: all of them are handled, what
  -- becomes of the registry is what some sequence of calls of its methods makes of it, and it is
  -- still sound.
  pub handle_message_link-refines :
      (me : EndpointId) (msgs : List (PeerMessage × ℕ)) (node : PlasmoidProtocol)
      → All (λ m. IsForeign me m.0) msgs
      → IsSound me node.registry
      → NodeFollows me node (handle_message_link msgs node)
  unfolding handle_message_link
  handle_message_link-refines me [] node f h = (node, refl, here, h)
  handle_message_link-refines me ((msg, now) ∷ msgs) node f h =
      let (next, e, path, ok) = handle-Follows me node h msg now f.0 in
      let (last, e', path', ok') = handle_message_link-refines me msgs next f.1 ok in
      (
        last,
        rw (e, handle_message_link) e',
        Reach-append me node.registry next.registry last.registry path path',
        ok',
      )
