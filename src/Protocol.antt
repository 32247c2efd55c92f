-- ===== src/Protocol.antt =====
-- src/protocol.rs: what a node does with the messages of its peers, and how nodes are introduced.
-- The node's parts are one record. Tasks that are only started are recorded: `syncs` lists the
-- nodes with which `sync_with_all` began to exchange name tables (Global.Merge has what it does).
pub mod Serve
pub mod Quiet
pub mod Signal
pub mod Follows
pub mod Refines
pub mod Blind
pub mod Volley
pub mod Tests
use plasmoid.Prelude.{
  ℕ, String, Bool, true, false, not, ◌&&◌, Option, none, some, List, [], ◌∷◌, ◌++◌, if◌then◌else◌,
  ◌==◌, nat_eq, map, filter, any,
}
use plasmoid.Prelude.Set
use plasmoid.Pid.{Pid, EndpointId}
use plasmoid.Message.{no_proc, ExitReason}
use plasmoid.Mailbox.{Bytes, SendResult}
use plasmoid.Registry.State.{ParticleRegistry}
use plasmoid.Registry.Send.{send_to_pid, send_tagged_to_pid, deliver_down, get_by_name}
use plasmoid.Registry.Relate.{link_remote, unlink_remote, monitor_remote, demonitor}
use plasmoid.Registry.Exit.{apply_inherited_exit, apply_directed_exit}
use plasmoid.Cluster.{Cluster, learn}
use plasmoid.Cluster.Partitions
use plasmoid.Global.{GlobalNames}
use plasmoid.Transport.{
  PeerMessage, Addressee, pid, name, EndpointAddr, Envelope, Wire, deliver, announce, link, unlink,
  monitor, demonitor as demonitor_message, exit, exit_signal, down, lost_connection,
  remove_connection,
}
use plasmoid.Transport.Links.{PeerLinks, remember, addrs_for, send, disconnect}

pub record PlasmoidProtocol : Type 0 where
  pub registry : ParticleRegistry
  pub peers : PeerLinks
  pub cluster : Cluster
  pub partitions : Partitions.Partitions
  pub global : GlobalNames
  pub syncs : List EndpointId

-- `resolve`: a name is looked up where it has arrived.
unfoldable pub resolve : Addressee → ParticleRegistry → Option Pid
unfolding get_by_name
resolve (pid p) r = some p
resolve (name n) r = get_by_name n r

unfoldable pub remember_all : List EndpointAddr → PeerLinks → PeerLinks
unfolding remember
remember_all [] p = p
remember_all (addr ∷ addrs) p = remember_all addrs (remember addr p)

-- With or without a reference; a failed delivery is only logged.
unfoldable pub send_either :
    Option ℕ → Pid → Bytes → ParticleRegistry → SendResult × ParticleRegistry
unfolding send_to_pid send_tagged_to_pid
send_either none to payload r = send_to_pid to payload r
send_either (some ref_id) to payload r = send_tagged_to_pid to ref_id payload r

abbrev pub deliver_resolved : Option Pid → Envelope → ParticleRegistry → ParticleRegistry
deliver_resolved none e r = r
deliver_resolved (some p) e r = (send_either e.ref_id p e.payload r).1

unfoldable pub deliver_envelope : Envelope → ParticleRegistry → ParticleRegistry
unfolding resolve send_either
deliver_envelope e r = deliver_resolved (resolve e.target r) e r

-- `mine.iter().any(..)`: whether the roster holds a node that the sender did not name.
unfoldable pub is_missing : EndpointId → List EndpointId → List EndpointId → Bool
is_missing sender announced mine =
    any (λ n. not (n == sender) && not (Set.contains n announced)) mine

abbrev pub with_registry : PlasmoidProtocol → Option ParticleRegistry → Option PlasmoidProtocol
with_registry node none = none
with_registry node (some r) = some (record node { registry = r })

abbrev pub unlink_resolved : Option Pid → Pid → PlasmoidProtocol → PlasmoidProtocol
unlink_resolved (some target) from node = record node {
  registry = unlink_remote target from node.registry;
}
unlink_resolved none from node = node

abbrev pub signal_resolved :
    Option Pid → Pid → ExitReason → PlasmoidProtocol → Option PlasmoidProtocol
signal_resolved (some target) from reason node =
    with_registry node (apply_directed_exit target from reason node.registry)
signal_resolved none from reason node = some node

abbrev pub parts_of : PlasmoidProtocol → Partitions.Node
parts_of node = record { cluster = node.cluster; partitions = node.partitions }

abbrev pub ids_of : List EndpointAddr → List EndpointId
ids_of nodes = map (λ a. a.id) nodes

-- The node once it has remembered the addresses and learned the nodes of an announcement.
abbrev pub noted : List EndpointAddr → ℕ → PlasmoidProtocol → PlasmoidProtocol
noted nodes now node = record node {
  peers = remember_all nodes node.peers;
  cluster = (learn (ids_of nodes) now node.cluster).1;
}

module _ ⦃wire : Wire⦄ where
  -- `let _ = peers.send(..)`: the error of the encoding is dropped.
  abbrev pub send_dropping : EndpointId → PeerMessage → PeerLinks → PeerLinks
  send_dropping to msg p = (send to msg p).1

  unfoldable pub announce_one : List EndpointId → EndpointId → PeerLinks → PeerLinks
  unfolding send addrs_for
  announce_one roster to p =
      send_dropping to (announce (p.our_addr ∷ addrs_for (filter (λ n. not (n == to)) roster) p)) p

  unfoldable pub announce_each : List EndpointId → List EndpointId → PeerLinks → PeerLinks
  unfolding announce_one
  announce_each roster [] p = p
  announce_each roster (to ∷ tos) p = announce_each roster tos (announce_one roster to p)

  -- `announce_to`, with the roster that it reads first.
  unfoldable pub announce_to : Cluster → List EndpointId → PeerLinks → PeerLinks
  unfolding announce_each
  announce_to cluster to p = announce_each cluster.members to p

  -- What both `accept` and an announcement do with the nodes that they learned.
  abbrev pub welcome : List EndpointId → PlasmoidProtocol → PlasmoidProtocol
  welcome [] node = node
  welcome (n ∷ ns) node = record node {
    peers = announce_to node.cluster (n ∷ ns) node.peers;
    syncs = node.syncs ++ n ∷ ns;
  }

  -- The answer to the sender, which stands first in its own announcement.
  abbrev pub answer_sender : List EndpointId → PlasmoidProtocol → PlasmoidProtocol
  answer_sender [] node = node
  answer_sender (sender ∷ others) node =
      if is_missing sender (sender ∷ others) node.cluster.members
      then record node { peers = announce_to node.cluster (sender ∷ []) node.peers }
      else node

  unfoldable pub on_announce : List EndpointAddr → ℕ → PlasmoidProtocol → PlasmoidProtocol
  unfolding remember_all learn announce_to is_missing
  on_announce nodes now node =
      answer_sender (ids_of nodes)
        (welcome (learn (ids_of nodes) now node.cluster).0 (noted nodes now node))

  -- `accept`, before its loop: a node that dials us is a member.
  unfoldable pub on_accept : EndpointId → ℕ → PlasmoidProtocol → PlasmoidProtocol
  unfolding learn announce_to
  on_accept remote now node =
      let learned = learn (remote ∷ []) now node.cluster in
      elim learned.0 [
        | [] ↦ record node { cluster = learned.1 }
        | n ∷ ns ↦ record node {
          cluster = learned.1;
          peers = announce_to learned.1 (remote ∷ []) node.peers;
          syncs = node.syncs ++ remote ∷ [];
        }
      ]

  -- `Runtime::join_at` of src/runtime/engine.rs: the introduction from the other side.
  unfoldable pub join_at : EndpointAddr → ℕ → PlasmoidProtocol → PlasmoidProtocol
  unfolding remember learn announce_to
  join_at peer now node =
      let cluster = (learn (peer.id ∷ []) now node.cluster).1 in
      record node {
        cluster = cluster;
        peers = announce_to cluster (peer.id ∷ []) (remember peer node.peers);
        syncs = node.syncs ++ peer.id ∷ [];
      }

  -- `Runtime::join`: by the identity alone.
  unfoldable pub join : EndpointId → ℕ → PlasmoidProtocol → PlasmoidProtocol
  unfolding learn announce_to
  join peer now node =
      let cluster = (learn (peer ∷ []) now node.cluster).1 in
      record node { cluster = cluster; peers = announce_to cluster (peer ∷ []) node.peers }

  -- The links' part in what src/partitions.rs asks for.
  unfoldable pub perform : List Partitions.Effect → PeerLinks → PeerLinks
  unfolding send disconnect
  perform [] p = p
  perform (Partitions.send_lost to loss op_id ∷ es) p =
      perform es (send_dropping to (lost_connection loss.reporter loss.lost op_id) p)
  perform (Partitions.send_remove to from ∷ es) p =
      perform es (send_dropping to (remove_connection from) p)
  perform (Partitions.disconnect to ∷ es) p = perform es (disconnect to p)

  abbrev pub after_partition :
      List Partitions.Effect × Partitions.Node → PlasmoidProtocol → PlasmoidProtocol
  after_partition (es, n) node = record node {
    peers = perform es node.peers;
    cluster = n.cluster;
    partitions = n.partitions;
  }

  abbrev pub link_resolved : Option Pid → Pid → PlasmoidProtocol → PlasmoidProtocol
  link_resolved (some target) from node = record node {
    registry = link_remote target from node.registry;
  }
  link_resolved none from node = record node {
    peers = send_dropping from.node (exit from from no_proc) node.peers;
  }

  abbrev pub monitor_resolved : Option Pid → Pid → ℕ → PlasmoidProtocol → PlasmoidProtocol
  monitor_resolved (some target) watcher ref_id node = record node {
    registry = monitor_remote watcher target ref_id node.registry;
  }
  monitor_resolved none watcher ref_id node = record node {
    peers = send_dropping watcher.node (down watcher watcher ref_id no_proc) node.peers;
  }

  -- `handle_peer_message`; `none` is that of `exit_now`, whose fuel never runs out.
  unfoldable pub handle_peer_message : PeerMessage → ℕ → PlasmoidProtocol → Option PlasmoidProtocol
  unfolding on_announce deliver_envelope resolve link_remote unlink_remote monitor_remote demonitor
      apply_inherited_exit apply_directed_exit deliver_down Partitions.on_lost_connection
      Partitions.on_remove_connection perform send
  handle_peer_message (announce nodes) now node = some (on_announce nodes now node)
  handle_peer_message (deliver e) now node =
      some (record node { registry = deliver_envelope e node.registry })
  handle_peer_message (link from to) now node =
      some (link_resolved (resolve to node.registry) from node)
  handle_peer_message (unlink from to) now node =
      some (unlink_resolved (resolve to node.registry) from node)
  handle_peer_message (monitor watcher target ref_id) now node =
      some (monitor_resolved (resolve target node.registry) watcher ref_id node)
  handle_peer_message (demonitor_message watcher ref_id) now node =
      some (record node { registry = demonitor watcher ref_id node.registry })
  handle_peer_message (exit from to reason) now node =
      with_registry node (apply_inherited_exit to from reason node.registry)
  handle_peer_message (exit_signal from to reason) now node =
      signal_resolved (resolve to node.registry) from reason node
  handle_peer_message (down from to ref_id reason) now node =
      some (record node { registry = deliver_down to from ref_id reason node.registry })
  handle_peer_message (lost_connection reporter lost op_id) now node = some (
      after_partition
        (Partitions.on_lost_connection (record { reporter = reporter; lost = lost }) op_id now
          (parts_of node))
        node)
  handle_peer_message (remove_connection from) now node =
      some (after_partition (Partitions.on_remove_connection from now (parts_of node)) node)

  -- `handle_message_link`, over the messages that were read, each with the time of its handling.
  unfoldable pub handle_message_link :
      List (PeerMessage × ℕ) → PlasmoidProtocol → Option PlasmoidProtocol
  unfolding handle_peer_message
  handle_message_link [] node = some node
  handle_message_link ((msg, now) ∷ msgs) node = elim (handle_peer_message msg now node) [
    | none ↦ none
    | some node' ↦ handle_message_link msgs node'
  ]
