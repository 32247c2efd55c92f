-- ===== src/Protocol/Volley.antt =====
-- src/protocol.rs: announcements between nodes that agree on a member that neither can address.
use plasmoid.Prelude.{ℕ, ◌≡◌, true, not, List, [], ◌∷◌, ◌==◌, nat_eq, filter, ◌++◌, some}
use plasmoid.Prelude.Set
use plasmoid.Pid.{EndpointId}
use plasmoid.Cluster.{Cluster, learn}
use plasmoid.Cluster.Roster.{is_member}
use plasmoid.Transport.{EndpointAddr, PeerMessage, announce, Wire}
use plasmoid.Transport.Links.{PeerLinks, addrs_for}
use plasmoid.Mailbox.{Bytes}
use plasmoid.Transport.Frame.{encode_frame}
use plasmoid.Transport.Links.Queues.{IsLinked, queued}
use plasmoid.Protocol.{PlasmoidProtocol, on_announce, welcome, ids_of, noted, send_dropping}
use plasmoid.Protocol.Blind.{Blind, Unnamed}

-- A node that has a member which it cannot address, and whose links have each their own queue.
pub record IsReady (hidden : EndpointId) (node : PlasmoidProtocol) : Type 0 where
  pub blind : Blind hidden node.peers
  pub member : is_member hidden node.cluster ≡ true
  pub linked : IsLinked node.peers

module _ ⦃wire : Wire⦄ where
  -- The node when it comes to answer, and the nodes that its answer names beside itself.
  abbrev welcomed : EndpointAddr → List EndpointAddr → ℕ → PlasmoidProtocol → PlasmoidProtocol
  welcomed first others now node =
      welcome (learn (ids_of (first ∷ others)) now node.cluster).0 (noted (first ∷ others) now node)

  abbrev pub answer_nodes :
      EndpointAddr → List EndpointAddr → ℕ → PlasmoidProtocol → List EndpointAddr
  answer_nodes first others now node =
      let w = welcomed first others now node in
      addrs_for (filter (λ m. not (m == first.id)) w.cluster.members) w.peers

  abbrev pub answer : EndpointAddr → List EndpointAddr → ℕ → PlasmoidProtocol → PeerMessage
  answer first others now node = announce (node.peers.our_addr ∷ answer_nodes first others now node)

  -- What it answers, and that it can answer so again.
  abbrev Answers : EndpointId → EndpointAddr → List EndpointAddr → ℕ → PlasmoidProtocol → Type 0
  Answers hidden first others now node =
      (before : PeerLinks) × ((on_announce (first ∷ others) now node).peers
        ≡ send_dropping first.id (answer first others now node) before)
      × IsLinked before
      × Unnamed hidden (node.peers.our_addr ∷ answer_nodes first others now node)
      × IsReady hidden (on_announce (first ∷ others) now node)
      × ((on_announce (first ∷ others) now node).peers.our_addr ≡ node.peers.our_addr)

  -- Announcements that cross between two nodes, each handled at its time: the second node in turn
  -- is sent an answer each time, which goes to the end of its queue.
  abbrev pub Volley :
      List ℕ → PlasmoidProtocol → PlasmoidProtocol → EndpointAddr → List EndpointAddr → Type 0
  Volley [] x y first others = Unit
  Volley (now ∷ times) x y first others =
      (before : PeerLinks) × (frame : Bytes) × (first.id ≡ y.peers.our_addr.id)
      × (encode_frame (answer first others now x) ≡ some frame)
      × (queued first.id (on_announce (first ∷ others) now x).peers
          ≡ queued first.id before ++ frame ∷ [])
      × Volley times y (on_announce (first ∷ others) now x) x.peers.our_addr
          (answer_nodes first others now x)

  -- Each answer can be encoded, and fits into a frame.
  abbrev pub Encodes :
      List ℕ → PlasmoidProtocol → PlasmoidProtocol → EndpointAddr → List EndpointAddr → Type 0
  Encodes [] x y first others = Unit
  Encodes (now ∷ times) x y first others =
      ((frame : Bytes) × (encode_frame (answer first others now x) ≡ some frame))
      × Encodes times y (on_announce (first ∷ others) now x) x.peers.our_addr
          (answer_nodes first others now x)
