-- ===== src/Host.antt =====
-- src/runtime/invoke.rs: the host functions by which a particle reaches others.
-- A host function acts on the node's parts and on the particle's own state, `HostState` of
-- src/host/state.rs, which may lack some of the parts. What the resource table has for a handle is
-- part of the destination, and the pids that a host function would push there are its results.
pub mod Agreement
pub mod Reach
pub mod Dead
pub mod Linked
pub mod Monitored
pub mod Spawning
pub mod Starting
pub mod Names
pub mod Globals
pub mod Receiving
pub mod Deploying
mod Tests
use plasmoid.Prelude.{
  ℕ, String, Bool, true, false, Option, none, some, if◌then◌else◌, ◌==◌, nat_eq, next_u64,
}
use plasmoid.Pid.{Pid, EndpointId, is_local_to}
use plasmoid.Pid.Key.{NodeIds, Text, parse_node}
use plasmoid.Message.{ExitReason, no_proc}
use plasmoid.Mailbox.{Bytes}
use plasmoid.Registry.State.{ParticleRegistry}
use plasmoid.Registry.Send.{deliver_exit, deliver_down, get_by_name}
use plasmoid.Registry.Relate
use plasmoid.Registry.Relate.{
  LinkResult, linked, link_remote, unlink_remote, monitor_remote, monitor_with_ref, set_trap_exit,
}
use plasmoid.Registry.Exit.{apply_directed_exit, exit_now}
use plasmoid.Transport.{PeerMessage, Addressee, Wire}
use plasmoid.Transport
use plasmoid.Transport.Links.{send}
use plasmoid.Protocol.{PlasmoidProtocol, send_dropping, send_either, with_registry}

-- Which of the node's parts the particle was given, with the endpoint's identity.
pub record HostState : Type 0 where
  pub pid : Pid
  pub endpoint : Option EndpointId
  pub has_registry : Bool
  pub has_peers : Bool
  pub next_ref : ℕ

-- `HostState::new`, with the parts that are set next.
unfoldable pub host_state : Pid → Option EndpointId → Bool → Bool → HostState
host_state pid endpoint has_registry has_peers = record {
  pid = pid;
  endpoint = endpoint;
  has_registry = has_registry;
  has_peers = has_peers;
  next_ref = 1;
}

-- `HostState::next_ref`, and `make_ref`.
unfoldable pub next_ref : HostState → ℕ × HostState
next_ref h = (h.next_ref, record h { next_ref = next_u64 h.next_ref })

pub data Destination : Type 0 where
  pid_handle : (found : Option Pid) → Destination
  local_named : (name : String) → Destination
  named : (node : Text) (name : String) → Destination

pub data Addressed : Type 0 where
  pid : Pid → Addressed
  name : String → Addressed

pub data LocalTarget : Type 0 where
  here : Addressed → LocalTarget
  elsewhere : EndpointId → Addressee → LocalTarget
  unknown : LocalTarget

abbrev pub local_pid : Option EndpointId → Pid → LocalTarget
local_pid none p = here (pid p)
local_pid (some me) p =
    if is_local_to p me then here (pid p) else elsewhere p.node (Transport.pid p)

abbrev pub is_me : Option EndpointId → EndpointId → Bool
is_me none n = false
is_me (some me) n = n == me

abbrev pub local_name : Option EndpointId → Option EndpointId → String → LocalTarget
local_name me none n = unknown
local_name me (some node) n =
    if is_me me node then here (name n) else elsewhere node (Transport.name n)

unfoldable pub resolve_local : ⦃ids : NodeIds⦄ → Destination → HostState → LocalTarget
unfolding is_local_to parse_node
resolve_local (pid_handle none) h = unknown
resolve_local (pid_handle (some p)) h = local_pid h.endpoint p
resolve_local (local_named n) h = here (name n)
resolve_local (named node n) h = local_name h.endpoint (parse_node node) n

unfoldable pub resolve_named : Addressed → HostState → ParticleRegistry → Option Pid
unfolding get_by_name
resolve_named (pid p) h r = some p
resolve_named (name n) h r = if h.has_registry then get_by_name n r else none

-- With the registry, if the particle was given it.
abbrev pub on_registry :
    HostState → (ParticleRegistry → ParticleRegistry) → PlasmoidProtocol → PlasmoidProtocol
on_registry h f node = if h.has_registry then record node { registry = f node.registry } else node

abbrev pub deliver_here :
    Option Pid → Option ℕ → Bytes → HostState → PlasmoidProtocol → PlasmoidProtocol
deliver_here none ref_id msg h node = node
deliver_here (some p) ref_id msg h node = on_registry h (λ r. (send_either ref_id p msg r).1) node

-- The target of an exit signal or a link on this node, once it is resolved.
abbrev pub signal_here :
    Option Pid → ExitReason → HostState → PlasmoidProtocol → Option PlasmoidProtocol
signal_here none reason h node = some node
signal_here (some target) reason h node =
    with_registry node (apply_directed_exit target h.pid reason node.registry)

abbrev pub note_linked : LinkResult × ParticleRegistry → Pid → ParticleRegistry
note_linked (linked, r) me = r
note_linked (Relate.no_particle p, r) me = deliver_exit me me no_proc r

abbrev pub link_here : Option Pid → Pid → ParticleRegistry → ParticleRegistry
link_here none me r = deliver_exit me me no_proc r
link_here (some target) me r = note_linked (Relate.link me target r) me

-- Our half of a relationship with a particle elsewhere, if it was named by its pid.
abbrev pub our_half :
    (Pid → ParticleRegistry → ParticleRegistry)
    → Addressee
    → HostState
    → PlasmoidProtocol
    → PlasmoidProtocol
our_half f (Transport.pid target) h node = on_registry h (f target) node
our_half f (Transport.name n) h node = node

abbrev pub unlink_here : Option Pid → Pid → ParticleRegistry → ParticleRegistry
unlink_here none me r = r
unlink_here (some target) me r = Relate.unlink me target r

abbrev pub monitor_here : Option Pid → Pid → ℕ → ParticleRegistry → ParticleRegistry
monitor_here none me ref_id r = deliver_down me me ref_id no_proc r
monitor_here (some target) me ref_id r = monitor_with_ref me target ref_id r

module _ ⦃wire : Wire⦄ where
  unfoldable pub send_control :
      EndpointId → PeerMessage → HostState → PlasmoidProtocol → PlasmoidProtocol
  unfolding send
  send_control to msg h node =
      if h.has_peers then record node { peers = send_dropping to msg node.peers } else node

  abbrev pub deliver_at :
      LocalTarget → Option ℕ → Bytes → HostState → PlasmoidProtocol → PlasmoidProtocol
  deliver_at unknown ref_id msg h node = node
  deliver_at (here t) ref_id msg h node =
      deliver_here (resolve_named t h node.registry) ref_id msg h node
  deliver_at (elsewhere to addressee) ref_id msg h node =
      send_control to
        (Transport.deliver (record { target = addressee; ref_id = ref_id; payload = msg })) h node

  abbrev pub signal_at :
      LocalTarget → ExitReason → HostState → PlasmoidProtocol → Option PlasmoidProtocol
  signal_at unknown reason h node = some node
  signal_at (here t) reason h node =
      if h.has_registry
      then signal_here (resolve_named t h node.registry) reason h node
      else some node
  signal_at (elsewhere to addressee) reason h node =
      some (send_control to (Transport.exit_signal h.pid addressee reason) h node)

  abbrev pub link_at : LocalTarget → HostState → PlasmoidProtocol → PlasmoidProtocol
  link_at unknown h node = node
  link_at (here t) h node = on_registry h (λ r. link_here (resolve_named t h r) h.pid r) node
  link_at (elsewhere to addressee) h node =
      send_control to (Transport.link h.pid addressee) h
        (our_half (λ target. link_remote h.pid target) addressee h node)

  abbrev pub unlink_at : LocalTarget → HostState → PlasmoidProtocol → PlasmoidProtocol
  unlink_at unknown h node = node
  unlink_at (here t) h node = on_registry h (λ r. unlink_here (resolve_named t h r) h.pid r) node
  unlink_at (elsewhere to addressee) h node =
      send_control to (Transport.unlink h.pid addressee) h
        (our_half (λ target. unlink_remote h.pid target) addressee h node)

  abbrev pub monitor_at : LocalTarget → ℕ → HostState → PlasmoidProtocol → PlasmoidProtocol
  monitor_at unknown ref_id h node = on_registry h (deliver_down h.pid h.pid ref_id no_proc) node
  monitor_at (here t) ref_id h node =
      on_registry h (λ r. monitor_here (resolve_named t h r) h.pid ref_id r) node
  monitor_at (elsewhere to addressee) ref_id h node =
      send_control to (Transport.monitor h.pid addressee ref_id) h
        (our_half (λ target. monitor_remote h.pid target ref_id) addressee h node)

module _ ⦃wire : Wire⦄ ⦃ids : NodeIds⦄ where
  -- `deliver_to`, which `send` and `send_ref` call.
  unfoldable pub deliver_to :
      Destination → Option ℕ → Bytes → HostState → PlasmoidProtocol → PlasmoidProtocol
  unfolding resolve_local resolve_named send_either send_control
  deliver_to dest ref_id msg h node = deliver_at (resolve_local dest h) ref_id msg h node

  -- `none` is that of `exit_now`, whose fuel never runs out.
  unfoldable pub exit_signal :
      Destination → ExitReason → HostState → PlasmoidProtocol → Option PlasmoidProtocol
  unfolding resolve_local resolve_named send_control apply_directed_exit
  exit_signal dest reason h node = signal_at (resolve_local dest h) reason h node

  unfoldable pub link : Destination → HostState → PlasmoidProtocol → PlasmoidProtocol
  unfolding resolve_local resolve_named send_control Relate.link link_remote deliver_exit
  link dest h node = link_at (resolve_local dest h) h node

  unfoldable pub unlink : Destination → HostState → PlasmoidProtocol → PlasmoidProtocol
  unfolding resolve_local resolve_named send_control Relate.unlink unlink_remote
  unlink dest h node = unlink_at (resolve_local dest h) h node

  -- `monitor`: the reference, the particle's state and the node after.
  unfoldable pub monitor :
      Destination → HostState → PlasmoidProtocol → ℕ × HostState × PlasmoidProtocol
  unfolding resolve_local resolve_named send_control next_ref monitor_remote monitor_with_ref
      deliver_down
  monitor dest h node =
      let (ref_id, h') = next_ref h in
      (ref_id, h', monitor_at (resolve_local dest h') ref_id h' node)

unfoldable pub demonitor : ℕ → HostState → PlasmoidProtocol → PlasmoidProtocol
unfolding Relate.demonitor
demonitor ref_id h node = on_registry h (Relate.demonitor h.pid ref_id) node

unfoldable pub trap_exit : Bool → HostState → PlasmoidProtocol → PlasmoidProtocol
unfolding set_trap_exit
trap_exit enabled h node = on_registry h (set_trap_exit h.pid enabled) node

-- `exit`; `none` is that of `exit_now`, whose fuel never runs out.
unfoldable pub exit : ExitReason → HostState → PlasmoidProtocol → Option PlasmoidProtocol
unfolding exit_now
exit reason h node =
    if h.has_registry then with_registry node (exit_now h.pid reason node.registry) else some node
