-- ===== src/Client.antt =====
-- src/client.rs: requests to a node, over an exchange of one command for one response, which is
-- `send_command`; it gives nothing if the node cannot be reached or the answer cannot be read.
pub mod Asks
use plasmoid.Prelude.{String, Bool, true, false, Option, none, some}
use plasmoid.Mailbox.{Bytes}
use plasmoid.Protocol.Serve.{
  Target, by_name, SendRequest, SendResponse, sent, SpawnRequest, SpawnResult, SpawnResponse,
  spawned, refused, Command, CommandResponse, send_response, spawn_response, global_response,
}
use plasmoid.Protocol.Serve

abbrev pub Exchange : Type 0
Exchange = Command → Option CommandResponse

abbrev pub spawn_command : String → Option String → String → Command
spawn_command component name init_args =
    Serve.spawn (record { component = component; name = name; init_args = init_args })

-- Another kind of response is an error too.
abbrev pub as_spawn : Option CommandResponse → Option SpawnResponse
as_spawn (some (spawn_response r)) = some r
as_spawn _ = none

abbrev pub as_send : Option CommandResponse → Option SendResponse
as_send (some (send_response r)) = some r
as_send _ = none

-- The outer `Result` is none here; the inner one is the response.
unfoldable pub try_spawn : Exchange → String → Option String → String → Option SpawnResponse
try_spawn exchange component name init_args =
    as_spawn (exchange (spawn_command component name init_args))

abbrev pub if_spawned : Option SpawnResponse → Option SpawnResult
if_spawned (some (spawned result)) = some result
if_spawned _ = none

unfoldable pub spawn : Exchange → String → Option String → String → Option SpawnResult
spawn exchange component name init_args =
    if_spawned (as_spawn (exchange (spawn_command component name init_args)))

abbrev pub is_sent : Option SendResponse → Bool
is_sent (some sent) = true
is_sent _ = false

-- Whether it was delivered.
unfoldable pub send : Exchange → String → Bytes → Bool
send exchange target msg =
    is_sent (as_send (exchange (Serve.send (record { target = by_name target; msg = msg }))))
