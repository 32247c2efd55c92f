-- ===== src/Transport/Links.antt =====
-- src/transport.rs: `PeerLinks`, the outbound queues of a node and the addresses that it knows.
-- The queue of a peer is shared by the table and its writer task: a link is the key of its queue,
-- and a queue outlives the link that `disconnect` takes out of the table. A queue here is all that
-- was sent into it; Writer has what the task does with it. `lost` is what `PeerLoss` published.
pub mod Queues
use plasmoid.Prelude.{ℕ, ◌+◌, Bool, true, false, Option, none, some, List, [], ◌∷◌, ◌++◌, nat_eq}
use plasmoid.Prelude.Map.{Map, get, insert, remove, modify}
use plasmoid.Prelude.Set
use plasmoid.Pid.{EndpointId}
use plasmoid.Mailbox.{Bytes}
use plasmoid.Transport.{EndpointAddr, TransportAddr, PeerMessage, Wire, bare}
use plasmoid.Transport.Frame.{encode_frame}

-- What `write_to_peer` is started with, and what its queue was sent.
pub record PeerWriter : Type 0 where
  pub node : EndpointId
  pub dial : EndpointAddr
  pub frames : List Bytes

-- `our_addr` is what the endpoint answers now.
pub record PeerLinks : Type 0 where
  pub our_addr : EndpointAddr
  pub links : Map EndpointId ℕ
  pub known : Map EndpointId EndpointAddr
  pub writers : Map ℕ PeerWriter
  pub next_writer : ℕ
  pub lost : List EndpointId

-- `PeerLinks::new`
unfoldable pub new : EndpointAddr → PeerLinks
new our_addr = record {
  our_addr = our_addr;
  links = [];
  known = [];
  writers = [];
  next_writer = 0;
  lost = [];
}

abbrev pub remember_addrs : List TransportAddr → EndpointAddr → PeerLinks → PeerLinks
remember_addrs [] addr p = p
remember_addrs (a ∷ more) addr p = record p { known = insert addr.id addr p.known }

unfoldable pub remember : EndpointAddr → PeerLinks → PeerLinks
remember addr p = remember_addrs addr.addrs addr p

abbrev pub add_transport : TransportAddr → EndpointAddr → EndpointAddr
add_transport transport a = record a { addrs = Set.insert transport a.addrs }

abbrev pub extend_known : Option EndpointAddr → EndpointId → TransportAddr → PeerLinks → PeerLinks
extend_known none id transport p = record p {
  known = insert id (record { id = id; addrs = transport ∷ [] }) p.known;
}
extend_known (some a) id transport p = record p {
  known = modify id (add_transport transport) p.known;
}

-- A path of a custom transport, of which no address can be made, is `none`.
unfoldable pub remember_incoming : EndpointId → Option TransportAddr → PeerLinks → PeerLinks
remember_incoming id none p = p
remember_incoming id (some transport) p = extend_known (get id p.known) id transport p

unfoldable pub dial_target : EndpointId → PeerLinks → EndpointAddr
dial_target node p = elim (get node p.known) [ none ↦ bare node | some addr ↦ addr ]

abbrev pub with_addr : Option EndpointAddr → List EndpointAddr → List EndpointAddr
with_addr none addrs = addrs
with_addr (some addr) addrs = addr ∷ addrs

unfoldable pub addrs_for : List EndpointId → PeerLinks → List EndpointAddr
addrs_for [] p = []
addrs_for (node ∷ nodes) p = with_addr (get node p.known) (addrs_for nodes p)

unfoldable pub announce_lost : EndpointId → PeerLinks → PeerLinks
announce_lost node p = record p { lost = p.lost ++ node ∷ [] }

unfoldable pub disconnect : EndpointId → PeerLinks → PeerLinks
unfolding announce_lost
disconnect node p = announce_lost node (record p { links = remove node p.links })

abbrev pub start_writer : EndpointId → PeerLinks → PeerLinks
start_writer node p = record p {
  links = insert node p.next_writer p.links;
  writers =
      insert p.next_writer (record { node = node; dial = dial_target node p; frames = [] })
        p.writers;
  next_writer = p.next_writer + 1;
}

abbrev pub link_found : Option ℕ → EndpointId → PeerLinks → ℕ × PeerLinks
link_found (some key) node p = (key, p)
link_found none node p = (p.next_writer, start_writer node p)

-- The queue of the peer, and its writer started if it is the first message to it.
unfoldable pub link_to : EndpointId → PeerLinks → ℕ × PeerLinks
unfolding dial_target
link_to node p = link_found (get node p.links) node p

abbrev pub enqueue : Bytes → PeerWriter → PeerWriter
enqueue bytes w = record w { frames = w.frames ++ bytes ∷ [] }

abbrev pub send_encoded : Option Bytes → EndpointId → PeerLinks → Bool × PeerLinks
send_encoded none node p = (false, p)
send_encoded (some bytes) node p =
    let (key, linked) = link_to node p in
    (true, record linked { writers = modify key (enqueue bytes) linked.writers })

-- `send`: false is the error of the encoding, the only one that there is.
unfoldable pub send : ⦃wire : Wire⦄ → EndpointId → PeerMessage → PeerLinks → Bool × PeerLinks
unfolding link_to encode_frame
send node msg p = send_encoded (encode_frame msg) node p
