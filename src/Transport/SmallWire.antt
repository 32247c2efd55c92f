-- ===== src/Transport/SmallWire.antt =====
-- An encoding of some of the peer messages, for runs of the model: it fails on the others.
use plasmoid.Prelude.{ℕ, zero, suc, ◌≡◌, refl, Option, none, some, List, [], ◌∷◌, arith}
use plasmoid.Pid.{Pid}
use plasmoid.Mailbox.{Bytes}
use plasmoid.Transport.{
  PeerMessage, Wire, deliver, announce, link, remove_connection, pid, Addressee, EndpointAddr,
}

abbrev pub small_envelope : Addressee → Option ℕ → Bytes → Option Bytes
small_envelope (pid p) none payload = some (0 ∷ p.node ∷ p.seq ∷ payload)
small_envelope _ _ payload = none

abbrev pub small_addr : ℕ → List ℕ → Option Bytes
small_addr id (x ∷ []) = some (1 ∷ id ∷ x ∷ [])
small_addr id _ = none

abbrev pub small_nodes : List EndpointAddr → Option Bytes
small_nodes (a ∷ []) = small_addr a.id a.addrs
small_nodes _ = none

abbrev pub small_link : Pid → Addressee → Option Bytes
small_link from (pid to) = some (2 ∷ from.node ∷ from.seq ∷ to.node ∷ to.seq ∷ [])
small_link from _ = none

abbrev pub small_serialize : PeerMessage → Option Bytes
small_serialize (deliver e) = small_envelope e.target e.ref_id e.payload
small_serialize (announce nodes) = small_nodes nodes
small_serialize (link from to) = small_link from to
small_serialize (remove_connection from) = some (3 ∷ from ∷ [])
small_serialize _ = none

abbrev pub pid_of : ℕ → ℕ → Pid
pid_of node seq = record { node = node; seq = seq }

abbrev pub small_deserialize : Bytes → Option PeerMessage
small_deserialize (zero ∷ node ∷ seq ∷ payload) =
    some (deliver (record { target = pid (pid_of node seq); ref_id = none; payload = payload }))
small_deserialize (suc zero ∷ id ∷ x ∷ []) =
    some (announce (record { id = id; addrs = x ∷ [] } ∷ []))
small_deserialize (suc (suc zero) ∷ n ∷ s ∷ m ∷ t ∷ []) =
    some (link (pid_of n s) (pid (pid_of m t)))
small_deserialize (suc (suc (suc zero)) ∷ from ∷ []) = some (remove_connection from)
small_deserialize _ = none

small_envelope_lem :
    (target : Addressee) (ref_id : Option ℕ) (payload body : Bytes)
    → small_envelope target ref_id payload ≡ some body
    → small_deserialize body
      ≡ some (deliver (record { target = target; ref_id = ref_id; payload = payload }))
small_envelope_lem (pid p) none payload body h =
    let e : body ≡ 0 ∷ p.node ∷ p.seq ∷ payload = ground arith in rw e refl
small_envelope_lem (pid p) (some r) payload body h = absurd (cc)
small_envelope_lem (Addressee.name n) ref_id payload body h = absurd (cc)

small_addr_lem :
    (id : ℕ) (addrs : List ℕ) (body : Bytes)
    → small_addr id addrs ≡ some body
    → small_deserialize body ≡ some (announce (record { id = id; addrs = addrs } ∷ []))
small_addr_lem id [] body h = absurd (cc)
small_addr_lem id (x ∷ []) body h = let e : body ≡ 1 ∷ id ∷ x ∷ [] = ground arith in rw e refl
small_addr_lem id (x ∷ y ∷ more) body h = absurd (cc)

small_nodes_lem :
    (nodes : List EndpointAddr) (body : Bytes)
    → small_nodes nodes ≡ some body
    → small_deserialize body ≡ some (announce nodes)
small_nodes_lem [] body h = absurd (cc)
small_nodes_lem (a ∷ []) body h = small_addr_lem a.id a.addrs body h
small_nodes_lem (a ∷ b ∷ more) body h = absurd (cc)

small_link_lem :
    (from : Pid) (to : Addressee) (body : Bytes)
    → small_link from to ≡ some body
    → small_deserialize body ≡ some (link from to)
small_link_lem from (pid to) body h =
    let e : body ≡ 2 ∷ from.node ∷ from.seq ∷ to.node ∷ to.seq ∷ [] = ground arith in rw e refl
small_link_lem from (Addressee.name n) body h = absurd (cc)

pub small_round_trip :
    (m : PeerMessage) (body : Bytes)
    → small_serialize m ≡ some body
    → small_deserialize body ≡ some m
small_round_trip (deliver e) body h = small_envelope_lem e.target e.ref_id e.payload body h
small_round_trip (announce nodes) body h = small_nodes_lem nodes body h
small_round_trip (link from to) body h = small_link_lem from to body h
small_round_trip (remove_connection from) body h =
    let e : body ≡ 3 ∷ from ∷ [] = ground arith in rw e refl
small_round_trip m body h = absurd (ground arith)

abbrev pub small_wire : Wire
small_wire = record {
  serialize = small_serialize;
  deserialize = small_deserialize;
  deserialize-serialize = small_round_trip;
}
