-- ===== src/Protocol/Serve.antt =====
-- src/protocol.rs: the requests of clients and of other nodes, one on each stream; their data is
-- that of src/wire.rs. Whether a spawned particle starts is for the WebAssembly engine to say, an
-- argument here: `start_particle` changes nothing of the node before the particle runs.
use plasmoid.Prelude.{String, Bool, Option, none, some, if◌then◌else◌, string_eq}
use plasmoid.Prelude.Map.{get}
use plasmoid.Pid.{Pid}
use plasmoid.Mailbox.{Bytes, SendResult}
use plasmoid.Mailbox
use plasmoid.Registry.State.{ParticleRegistry, PolicySet}
use plasmoid.Registry.Send.{get_by_name, send_to_pid}
use plasmoid.Registry.Spawn
use plasmoid.Global.{GlobalNames, GlobalRequest, GlobalResponse, sync, apply}
use plasmoid.Global.Merge.{answer_sync}
use plasmoid.Protocol.{PlasmoidProtocol}

pub data Target : Type 0 where
  by_pid : Pid → Target
  by_name : String → Target

pub record SendRequest : Type 0 where
  pub target : Target
  pub msg : Bytes

-- `Result<(), String>`
pub data SendResponse : Type 0 where
  sent : SendResponse
  no_target : Target → SendResponse
  not_sent : SendResponse

pub record SpawnRequest : Type 0 where
  pub component : String
  pub name : Option String
  pub init_args : String

pub record SpawnResult : Type 0 where
  pub pid : Pid
  pub component : String
  pub name : Option String

pub data SpawnFailureWire : Type 0 where
  component_not_found init_failed resource_limit : SpawnFailureWire

-- `Result<SpawnResult, SpawnFailureWire>`
pub data SpawnResponse : Type 0 where
  spawned : SpawnResult → SpawnResponse
  refused : SpawnFailureWire → SpawnResponse

pub data Command : Type 0 where
  send : SendRequest → Command
  spawn : SpawnRequest → Command
  global : GlobalRequest → Command

pub data CommandResponse : Type 0 where
  send_response : SendResponse → CommandResponse
  spawn_response : SpawnResponse → CommandResponse
  global_response : GlobalResponse → CommandResponse

abbrev pub target_pid : Target → ParticleRegistry → Option Pid
target_pid (by_pid p) r = some p
target_pid (by_name n) r = get_by_name n r

abbrev pub answer_of : SendResult → SendResponse
answer_of Mailbox.ok = sent
answer_of Mailbox.no_particle = not_sent

abbrev pub send_found :
    Option Pid → SendRequest → ParticleRegistry → SendResponse × ParticleRegistry
send_found none request r = (no_target request.target, r)
send_found (some pid) request r =
    let (result, r') = send_to_pid pid request.msg r in (answer_of result, r')

unfoldable pub handle_send : SendRequest → ParticleRegistry → SendResponse × ParticleRegistry
unfolding get_by_name send_to_pid
handle_send request r = send_found (target_pid request.target r) request r

-- The answer once the registry has spawned, or refused to.
abbrev pub started_or_not :
    Bool → SpawnRequest → Spawn.SpawnResult × ParticleRegistry → SpawnResponse × ParticleRegistry
started_or_not starts request (Spawn.ok pid mailbox, r) =
    if starts
    then (spawned (record { pid = pid; component = request.component; name = request.name }), r)
    else (refused init_failed, r)
started_or_not starts request (Spawn.name_taken n, r) = (refused resource_limit, r)
started_or_not starts request (Spawn.no_component c, r) = (refused resource_limit, r)

abbrev pub spawn_found :
    Option PolicySet
    → Bool
    → (ParticleRegistry → ParticleRegistry)
    → SpawnRequest
    → ParticleRegistry
    → SpawnResponse × ParticleRegistry
spawn_found none starts between request r = (refused component_not_found, r)
spawn_found (some caps) starts between request r =
    started_or_not starts request (Spawn.spawn request.component request.name (some caps) between r)

unfoldable pub handle_spawn :
    Bool
    → (ParticleRegistry → ParticleRegistry)
    → SpawnRequest
    → ParticleRegistry
    → SpawnResponse × ParticleRegistry
unfolding Spawn.spawn
handle_spawn starts between request r =
    spawn_found (get request.component r.components) starts between request r

-- A registry that was reached; `none` is that of the kills, whose fuel never runs out.
abbrev pub synced :
    GlobalResponse × GlobalNames × Option ParticleRegistry
    → PlasmoidProtocol
    → Option (Option CommandResponse × PlasmoidProtocol)
synced (answer, g, none) node = none
synced (answer, g, some r) node =
    some (some (global_response answer), record node { global = g; registry = r })

abbrev pub handle_global :
    GlobalRequest → PlasmoidProtocol → Option (Option CommandResponse × PlasmoidProtocol)
handle_global (sync names) node = synced (answer_sync names node.global node.registry) node
handle_global request node =
    let (answer, g) = apply request node.global in
    some (some (global_response answer), record node { global = g })

-- `handle_stream`: a command that cannot be decoded is not answered.
unfoldable pub handle_stream :
    Bool
    → (ParticleRegistry → ParticleRegistry)
    → Option Command
    → PlasmoidProtocol
    → Option (Option CommandResponse × PlasmoidProtocol)
unfolding handle_send handle_spawn answer_sync apply
handle_stream starts between none node = some (none, node)
handle_stream starts between (some (send request)) node =
    let (answer, r) = handle_send request node.registry in
    some (some (send_response answer), record node { registry = r })
handle_stream starts between (some (spawn request)) node =
    let (answer, r) = handle_spawn starts between request node.registry in
    some (some (spawn_response answer), record node { registry = r })
handle_stream starts between (some (global request)) node = handle_global request node
