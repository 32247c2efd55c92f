-- ===== src/Transport.antt =====
-- src/transport.rs: what crosses a link between nodes, how it is framed, and the links.
-- The parts of iroh that the file uses are data here: an `EndpointAddr` is an identity and the
-- transport addresses known for it, of which the file uses equality only. What postcard makes of
-- a message is a parameter, `Wire`.
pub mod Frame
pub mod Links
pub mod Writer
pub mod SmallWire
mod Tests
use plasmoid.Prelude.{ℕ, String, Option, some, List, [], ◌∷◌, ◌≡◌}
use plasmoid.Pid.{Pid, EndpointId}
use plasmoid.Message.{ExitReason}
use plasmoid.Mailbox.{Bytes}

pub data Addressee : Type 0 where
  pid : Pid → Addressee
  name : String → Addressee

pub record Envelope : Type 0 where
  pub target : Addressee
  pub ref_id : Option ℕ
  pub payload : Bytes

abbrev pub TransportAddr : Type 0
TransportAddr = ℕ

pub record EndpointAddr : Type 0 where
  pub id : EndpointId
  pub addrs : List TransportAddr

-- `node.into()`
abbrev pub bare : EndpointId → EndpointAddr
bare node = record { id = node; addrs = [] }

pub data PeerMessage : Type 0 where
  deliver : Envelope → PeerMessage
  announce : (nodes : List EndpointAddr) → PeerMessage
  link : (from : Pid) (to : Addressee) → PeerMessage
  unlink : (from : Pid) (to : Addressee) → PeerMessage
  monitor : (watcher : Pid) (target : Addressee) (ref_id : ℕ) → PeerMessage
  demonitor : (watcher : Pid) (ref_id : ℕ) → PeerMessage
  exit : (from to : Pid) (reason : ExitReason) → PeerMessage
  exit_signal : (from : Pid) (to : Addressee) (reason : ExitReason) → PeerMessage
  down : (from to : Pid) (ref_id : ℕ) (reason : ExitReason) → PeerMessage
  lost_connection : (reporter lost : EndpointId) (op_id : ℕ) → PeerMessage
  remove_connection : (from : EndpointId) → PeerMessage

-- postcard's encoding of a message, which can fail, and its decoding, which reads it back.
pub record Wire : Type 0 where
  pub serialize : PeerMessage → Option Bytes
  pub deserialize : Bytes → Option PeerMessage
  pub deserialize-serialize :
      (m : PeerMessage) (body : Bytes) → serialize m ≡ some body → deserialize body ≡ some m
