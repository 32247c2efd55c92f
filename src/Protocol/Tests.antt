-- ===== src/Protocol/Tests.antt =====
-- Runs of src/protocol.rs on small nodes, over a small encoding.
use plasmoid.Prelude.{ℕ, ◌≡◌, refl, none, some, List, [], ◌∷◌, arith, nat_eq, string_eq}
use plasmoid.Prelude.Map.{get, insert}
use plasmoid.Prelude.Set
use plasmoid.Pid.{Pid, EndpointId, pid_eq, pid_generator}
use plasmoid.Message.{kill}
use plasmoid.Registry.State.{ParticleRegistry}
use plasmoid.Registry.State
use plasmoid.Registry.Spawn.{register_component}
use plasmoid.Registry.Spawn
use plasmoid.Registry.History.{Reach, here, then_step, registers_component, spawns}
use plasmoid.Cluster
use plasmoid.Cluster.Roster.{is_member}
use plasmoid.Cluster.Partitions
use plasmoid.Global
use plasmoid.Transport
use plasmoid.Transport.{Wire, PeerMessage, EndpointAddr, bare}
use plasmoid.Transport.SmallWire.{small_wire}
use plasmoid.Transport.Links
use plasmoid.Protocol.{PlasmoidProtocol, handle_peer_message, on_announce, noted}
use plasmoid.Protocol.Quiet.{on_announce-quiet}
use plasmoid.Protocol.Signal.{handle_peer_message-ignores}
use plasmoid.Protocol.Volley.{Volley}

instance abbrev wire : Wire
wire = small_wire

-- A node with a component "worker" and one particle of it, the first.
unfoldable pub registry_of : ℕ → ParticleRegistry
unfolding pid_generator State.new register_component insert Spawn.spawn
registry_of me =
    (Spawn.spawn "worker" none none (λ q. q)
      (register_component "worker" [] (State.new (pid_generator me)))).1

unfoldable pub node_of : ℕ → PlasmoidProtocol
unfolding registry_of Links.new Cluster.new Partitions.new Global.new
node_of me = record {
  registry = registry_of me;
  peers = Links.new (bare me);
  cluster = Cluster.new me;
  partitions = Partitions.new me;
  global = Global.new me;
  syncs = [];
}

abbrev pub pid_at : ℕ → ℕ → Pid
pid_at node seq = record { node = node; seq = seq }

registered : Reach 7 (State.new (pid_generator 7)) (registry_of 7)
unfolding registry_of State.new pid_generator
registered =
    then_step (then_step here (registers_component "worker" [] refl))
      (spawns "worker" none none (omega arith) refl)

-- A remote particle sends to ours, links to it and kills it.
abbrev visit : List (PeerMessage × ℕ)
visit =
    (
      Transport.deliver
          (record { target = Transport.pid (pid_at 7 1); ref_id = none; payload = 42 ∷ [] }),
      0,
    )
    ∷ (Transport.link (pid_at 5 1) (Transport.pid (pid_at 7 1)), 1)
    ∷ (Transport.exit_signal (pid_at 5 1) (Transport.pid (pid_at 7 1)) kill, 2)
    ∷ []

handle_peer_message-ignores_example :
    (handle_peer_message (Transport.link (pid_at 5 1) (Transport.pid (pid_at 7 9))) 0 (node_of 7)
      ≡ some (node_of 7))
    × (handle_peer_message
          (Transport.monitor (pid_at 5 1) (Transport.pid (pid_at 7 9)) 3)
          0
          (node_of 7)
        ≡ some (node_of 7))
    × (handle_peer_message (Transport.demonitor (pid_at 5 1) 3) 0 (node_of 7) ≡ some (node_of 7))
unfolding node_of get
handle_peer_message-ignores_example =
    handle_peer_message-ignores (pid_at 5 1) (pid_at 7 9) 3 0 (node_of 7) refl refl

-- The node with another as its member.
abbrev beside : EndpointId → ℕ → PlasmoidProtocol
beside other me = record (node_of me) {
  cluster = record (node_of me).cluster { members = other ∷ [] };
}

on_announce-quiet_example :
    (on_announce (bare 7 ∷ []) 0 (beside 7 5) ≡ noted (bare 7 ∷ []) 0 (beside 7 5))
    × ((n : EndpointId)
        → is_member n (on_announce (bare 7 ∷ []) 0 (beside 7 5)).cluster
          ≡ is_member n (beside 7 5).cluster)
unfolding node_of Set.contains
on_announce-quiet_example =
    on_announce-quiet (bare 7) [] 0 (beside 7 5) (λ n c. ground arith) (λ n c. c)

abbrev at_port : ℕ → EndpointAddr
at_port me = record { id = me; addrs = 4 ∷ [] }

-- A node with an address of its own and a member that it cannot address.
abbrev in_dark : ℕ → PlasmoidProtocol
in_dark me = record (beside 9 me) { peers = Links.new (at_port me) }
