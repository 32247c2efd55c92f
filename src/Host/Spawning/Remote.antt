-- ===== src/Host/Spawning/Remote.antt =====
-- src/runtime/invoke.rs and src/protocol.rs: what a spawn on another node comes to.
use plasmoid.Prelude.{
  ◌≡◌, refl, sym, ap, ◌∙◌, String, Bool, true, false, Option, none, some, ◌==◌, nat_eq, string_eq,
  beq_refl, Bool-cases, inl, inr,
}
use plasmoid.Prelude.Map.{get}
use plasmoid.Pid.{EndpointId}
use plasmoid.Pid.Key.{NodeIds, Text, parse_node}
use plasmoid.Mailbox.{SpawnOutcome, resource_limit}
use plasmoid.Registry.State.{ParticleRegistry, PolicySet}
use plasmoid.Registry.Spawn
use plasmoid.Protocol.Serve.{SpawnRequest, SpawnResponse, handle_spawn, spawn_found, started_or_not}
use plasmoid.Host.{HostState}
use plasmoid.Host.Spawning.{
  Between, local_spawn, remote_spawn, spawn_at, spawn_template, start_spawned, outcome_of,
}

-- How the asking node reads an answer, beside the answering node's registry.
abbrev answered : SpawnResponse × ParticleRegistry → SpawnOutcome × ParticleRegistry
answered (response, r) = (outcome_of (some response), r)

answered-started :
    (starts : Bool) (request : SpawnRequest) (result : Spawn.SpawnResult × ParticleRegistry)
    → answered (started_or_not starts request result)
      ≡ start_spawned starts resource_limit (λ pid q. q) result
answered-started starts request (Spawn.ok pid mailbox, r) = elim (Bool-cases starts) [
  | inl e ↦ rw e refl
  | inr e ↦ rw e refl
]
answered-started starts request (Spawn.name_taken n, r) = refl
answered-started starts request (Spawn.no_component c, r) = refl

answered-found :
    (found : Option PolicySet) (starts : Bool) (between : Between) (request : SpawnRequest)
    (r : ParticleRegistry)
    → answered (spawn_found found starts between request r)
      ≡ spawn_template found starts resource_limit
          (λ pid q. q)
          request.component
          request.name
          between
          r
answered-found none starts between request r = refl
answered-found (some caps) starts between request r =
    answered-started starts request
      (Spawn.spawn request.component request.name (some caps) between r)

-- A request handled is a spawn of this node's own.
handle_spawn-local_spawn :
    (starts : Bool) (between : Between) (request : SpawnRequest) (r : ParticleRegistry)
    → answered (handle_spawn starts between request r)
      ≡ local_spawn starts request.component request.name between r
unfolding handle_spawn local_spawn
handle_spawn-local_spawn starts between request r =
    answered-found (get request.component r.components) starts between request r

module _ ⦃ids : NodeIds⦄ where
  remote_spawn-at :
      (node : Text) (remote : EndpointId → Option SpawnResponse) (starts : Bool)
      (component : String) (name : Option String) (between : Between) (h : HostState)
      (r : ParticleRegistry) {me to : EndpointId}
      → h.has_registry ≡ true
      → h.endpoint ≡ some me
      → parse_node node ≡ some to
      → remote_spawn node remote starts component name between h r
        ≡ spawn_at (some me) (some to) remote starts component name between r
  unfolding remote_spawn
  remote_spawn-at node remote starts component name between h r has mine there =
      rw (has, mine, there) refl

  -- Spawning on another node is what spawning there is. Given a node's text that names another
  -- node, which answers: what the particle is told, and what becomes of that node's registry, is
  -- what a particle of that node would have got by asking for its own node with the same request,
  -- in whatever way the component starts or fails to; and the asking node's registry stays.
  pub remote_spawn-reaches :
      (node : Text) (starts elsewhere : Bool) (request : SpawnRequest) (between other : Between)
      (remote : EndpointId → Option SpawnResponse) (h hb : HostState) (a b : ParticleRegistry)
      (me to : EndpointId)
      → h.has_registry ≡ true
      → h.endpoint ≡ some me
      → parse_node node ≡ some to
      → (to == me) ≡ false
      → hb.has_registry ≡ true
      → hb.endpoint ≡ some to
      → (remote_spawn node
            (λ n. some (handle_spawn starts between request b).0)
            elsewhere
            request.component
            request.name
            other
            h
            a
          ≡ ((remote_spawn node remote starts request.component request.name between hb b).0, a))
        × ((handle_spawn starts between request b).1
            ≡ (remote_spawn node remote starts request.component request.name between hb b).1)
  remote_spawn-reaches node starts elsewhere request between other remote h hb a b me to has mine
        there away has_b mine_b =
      let response = (handle_spawn starts between request b).0 in
      let at_home : answered (handle_spawn starts between request b)
          ≡ remote_spawn node remote starts request.component request.name between hb b =
        handle_spawn-local_spawn starts between request b
        ∙ sym (
            remote_spawn-at node remote starts request.component request.name between hb b has_b
              mine_b there
            ∙ own to) in
      (
        remote_spawn-at node (λ n. some response) elsewhere request.component request.name other h a
              has mine there
            ∙ rw away refl
            ∙ ap (λ (o : SpawnOutcome × ParticleRegistry). (o.0, a)) at_home,
        ap (λ (o : SpawnOutcome × ParticleRegistry). o.1) at_home,
      )
    where
      own :
          (n : EndpointId)
          → spawn_at (some n) (some n) remote starts request.component request.name between b
            ≡ local_spawn starts request.component request.name between b
      own n = rw (beq_refl n) refl
