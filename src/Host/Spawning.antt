-- ===== src/Host/Spawning.antt =====
-- src/runtime/invoke.rs: the host functions that spawn, here and on other nodes.
-- Whether a particle starts is for the WebAssembly engine to say; what another node answers is an
-- argument, nothing if it is not reached. A particle's registry, engine and mailbox are set together,
-- by `start_particle`.
pub mod Unstarted
pub mod Remote
use plasmoid.Prelude.{
  ℕ, String, Bool, true, false, Option, none, some, if◌then◌else◌, ◌==◌, nat_eq, string_eq,
  next_u64,
}
use plasmoid.Prelude.Map.{get}
use plasmoid.Pid.{Pid, EndpointId}
use plasmoid.Pid.Key.{NodeIds, Text, parse_node}
use plasmoid.Mailbox.{
  SpawnFailure, component_not_found, init_failed, resource_limit, node_unreachable, SpawnOutcome,
  spawned, failed,
}
use plasmoid.Registry.State.{ParticleRegistry, PolicySet}
use plasmoid.Registry.Relate
use plasmoid.Registry.Spawn
use plasmoid.Protocol.{PlasmoidProtocol}
use plasmoid.Protocol.Serve
use plasmoid.Protocol.Serve.{SpawnResponse, SpawnFailureWire, refused}
use plasmoid.Host.{HostState}

-- What other tasks do before `spawn` inserts its name, as in Registry.Spawn.
abbrev pub Between : Type 0
Between = ParticleRegistry → ParticleRegistry

-- What follows a spawn by the registry: `linked` says what is done before the start, and `unable`
-- is how this caller reports a refusal of the registry.
abbrev pub start_spawned :
    Bool
    → SpawnFailure
    → (Pid → ParticleRegistry → ParticleRegistry)
    → Spawn.SpawnResult × ParticleRegistry
    → SpawnOutcome × ParticleRegistry
start_spawned starts unable prepare (Spawn.ok pid mailbox, r) =
    (if starts then spawned pid else failed init_failed, prepare pid r)
start_spawned starts unable prepare (Spawn.name_taken n, r) = (failed unable, r)
start_spawned starts unable prepare (Spawn.no_component c, r) = (failed unable, r)

abbrev pub spawn_template :
    Option PolicySet
    → Bool
    → SpawnFailure
    → (Pid → ParticleRegistry → ParticleRegistry)
    → String
    → Option String
    → Between
    → ParticleRegistry
    → SpawnOutcome × ParticleRegistry
spawn_template none starts unable prepare component name between r = (failed component_not_found, r)
spawn_template (some caps) starts unable prepare component name between r =
    start_spawned starts unable prepare (Spawn.spawn component name (some caps) between r)

-- `spawn` of the host interface.
unfoldable pub spawn :
    Bool
    → String
    → Option String
    → Between
    → HostState
    → ParticleRegistry
    → SpawnOutcome × ParticleRegistry
unfolding Spawn.spawn
spawn starts component name between h r =
    if h.has_registry
    then spawn_template (get component r.components) starts init_failed (λ pid q. q) component name
        between r
    else (failed init_failed, r)

-- The result of the link is dropped.
abbrev pub link_child : Pid → Pid → ParticleRegistry → ParticleRegistry
link_child me pid r = (Relate.link me pid r).1

-- `spawn_link`: the link is recorded before the child is started.
unfoldable pub spawn_link :
    Bool
    → String
    → Option String
    → Between
    → HostState
    → ParticleRegistry
    → SpawnOutcome × ParticleRegistry
unfolding Spawn.spawn Relate.link
spawn_link starts component name between h r =
    if h.has_registry
    then spawn_template (get component r.components) starts init_failed (link_child h.pid) component
        name between r
    else (failed init_failed, r)

unfoldable pub local_spawn :
    Bool → String → Option String → Between → ParticleRegistry → SpawnOutcome × ParticleRegistry
unfolding Spawn.spawn
local_spawn starts component name between r =
    spawn_template (get component r.components) starts resource_limit (λ pid q. q) component name
      between r

abbrev pub failure_of : SpawnFailureWire → SpawnFailure
failure_of Serve.component_not_found = component_not_found
failure_of Serve.init_failed = init_failed
failure_of Serve.resource_limit = resource_limit

-- What another node's answer to a spawn request comes to.
abbrev pub outcome_of : Option SpawnResponse → SpawnOutcome
outcome_of none = failed node_unreachable
outcome_of (some (Serve.spawned result)) = spawned result.pid
outcome_of (some (refused e)) = failed (failure_of e)

abbrev pub spawn_at :
    Option EndpointId
    → Option EndpointId
    → (EndpointId → Option SpawnResponse)
    → Bool
    → String
    → Option String
    → Between
    → ParticleRegistry
    → SpawnOutcome × ParticleRegistry
spawn_at none target remote starts component name between r = (failed node_unreachable, r)
spawn_at (some me) none remote starts component name between r = (failed node_unreachable, r)
spawn_at (some me) (some node) remote starts component name between r =
    if node == me
    then local_spawn starts component name between r
    else (outcome_of (remote node), r)

module _ ⦃ids : NodeIds⦄ where
  -- `remote_spawn`, which `spawn_on` waits for and `spawn_request` starts as a task; `remote` is
  -- what each node would answer.
  unfoldable pub remote_spawn :
      Text
      → (EndpointId → Option SpawnResponse)
      → Bool
      → String
      → Option String
      → Between
      → HostState
      → ParticleRegistry
      → SpawnOutcome × ParticleRegistry
  unfolding parse_node local_spawn
  remote_spawn node remote starts component name between h r =
      if h.has_registry
      then spawn_at h.endpoint (parse_node node) remote starts component name between r
      else (failed node_unreachable, r)
