-- ===== src/Host/Agreement.antt =====
-- src/runtime/invoke.rs and src/protocol.rs: that two nodes agree on where a destination lives.
use plasmoid.Prelude.{
  String, ◌≡◌, refl, true, Option, none, some, arith, ◌==◌, nat_eq, nat_beq_iff, Bool-cases, inl,
  inr,
}
use plasmoid.Pid.{Pid, EndpointId, is_local_to}
use plasmoid.Pid.Key.{NodeIds, parse_node}
use plasmoid.Registry.State.{ParticleRegistry}
use plasmoid.Transport.{PeerMessage, Addressee, Envelope, Wire}
use plasmoid.Transport
use plasmoid.Protocol.{resolve}
use plasmoid.Host.{
  HostState, Destination, pid_handle, local_named, named, Addressed, here, elsewhere, local_pid,
  local_name, is_me, resolve_local, resolve_named,
}

-- An addressee, on the node that it was sent to.
abbrev pub as_local : Addressee → Addressed
as_local (Transport.pid p) = Addressed.pid p
as_local (Transport.name n) = Addressed.name n

local_pid-agrees :
    (me : Option EndpointId) (p : Pid) (to : EndpointId) (addressee : Addressee)
    → local_pid me p ≡ elsewhere to addressee
    → local_pid (some to) p ≡ here (as_local addressee)
unfolding is_local_to
local_pid-agrees none p to addressee e = absurd (cc)
local_pid-agrees (some me) p to addressee e = elim (Bool-cases (p.node == me)) [
  | inl same ↦ absurd (ground arith)
  | inr apart ↦
      let to_node : to ≡ p.node = ground arith in
      let by_pid : addressee ≡ Transport.pid p = ground arith in
      rw to_node (rw by_pid (ground (arith, nat_beq_iff p.node p.node)))
]

local_name-agrees :
    (me node : Option EndpointId) (n : String) (to : EndpointId) (addressee : Addressee)
    → local_name me node n ≡ elsewhere to addressee
    → local_name (some to) node n ≡ here (as_local addressee)
local_name-agrees me none n to addressee e = absurd (cc)
local_name-agrees me (some node) n to addressee e = elim (Bool-cases (is_me me node)) [
  | inl same ↦ absurd (ground arith)
  | inr apart ↦
      let to_node : to ≡ node = ground arith in
      let by_name : addressee ≡ Transport.name n = ground arith in
      rw to_node (rw by_name (ground (arith, nat_beq_iff node node)))
]

module _ ⦃ids : NodeIds⦄ where
  pub resolve_local-agrees :
      (dest : Destination) (h hb : HostState) (to : EndpointId) (addressee : Addressee)
      → resolve_local dest h ≡ elsewhere to addressee
      → hb.endpoint ≡ some to
      → resolve_local dest hb ≡ here (as_local addressee)
  unfolding resolve_local
  resolve_local-agrees (pid_handle none) h hb to addressee e there = absurd (cc)
  resolve_local-agrees (pid_handle (some p)) h hb to addressee e there =
      rw there (local_pid-agrees h.endpoint p to addressee e)
  resolve_local-agrees (local_named n) h hb to addressee e there = absurd (cc)
  resolve_local-agrees (named node n) h hb to addressee e there =
      rw there (local_name-agrees h.endpoint (parse_node node) n to addressee e)

pub resolve_named-resolve :
    (addressee : Addressee) (h : HostState) (r : ParticleRegistry)
    → h.has_registry ≡ true
    → resolve_named (as_local addressee) h r ≡ resolve addressee r
unfolding resolve_named resolve
resolve_named-resolve (Transport.pid p) h r has = refl
resolve_named-resolve (Transport.name n) h r has = rw has refl
