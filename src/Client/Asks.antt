-- ===== src/Client/Asks.antt =====
-- src/client.rs and src/protocol.rs: that a client is told what the node did.
use plasmoid.Prelude.{◌≡◌, refl, String, Bool, true, false, Option, none, some, string_eq}
use plasmoid.Pid.{Pid}
use plasmoid.Mailbox.{Bytes, SendResult}
use plasmoid.Mailbox
use plasmoid.Registry.State.{ParticleRegistry}
use plasmoid.Registry.Send.{get_by_name, send_to_pid}
use plasmoid.Protocol.{PlasmoidProtocol}
use plasmoid.Protocol.Serve.{
  CommandResponse, handle_stream, handle_spawn, handle_send, send_found, answer_of, SendRequest,
  by_name,
}
use plasmoid.Host.Spawning.{Between}
use plasmoid.Client.{Exchange, try_spawn, send, is_sent}

-- What a node answers on a stream.
abbrev response_of : Option (Option CommandResponse × PlasmoidProtocol) → Option CommandResponse
response_of none = none
response_of (some (answer, node)) = answer

abbrev pub ask : Bool → Between → PlasmoidProtocol → Exchange
ask starts between node command = response_of (handle_stream starts between (some command) node)

-- Whether the registry took the message.
abbrev pub accepted : SendResult → Bool
accepted Mailbox.ok = true
accepted Mailbox.no_particle = false

abbrev delivered : Option Pid → Bytes → ParticleRegistry → Bool
delivered none msg r = false
delivered (some p) msg r = accepted (send_to_pid p msg r).0

is_sent-answer_of : (result : SendResult) → is_sent (some (answer_of result)) ≡ accepted result
is_sent-answer_of Mailbox.ok = refl
is_sent-answer_of Mailbox.no_particle = refl

is_sent-send_found :
    (found : Option Pid) (request : SendRequest) (r : ParticleRegistry)
    → is_sent (some (send_found found request r).0) ≡ delivered found request.msg r
is_sent-send_found none request r = refl
is_sent-send_found (some p) request r = is_sent-answer_of (send_to_pid p request.msg r).0

-- A client is told what the node did: it has sent exactly if the name stands for a pid whose mailbox
-- took the message, and a spawn gives the node's own answer.
pub send-ask :
    (starts : Bool) (between : Between) (node : PlasmoidProtocol) (target : String) (msg : Bytes)
    → send (ask starts between node) target msg
      ≡ delivered (get_by_name target node.registry) msg node.registry
unfolding send handle_stream handle_send
send-ask starts between node target msg =
    is_sent-send_found (get_by_name target node.registry)
      (record { target = by_name target; msg = msg }) node.registry

pub try_spawn-ask :
    (starts : Bool) (between : Between) (node : PlasmoidProtocol) (component : String)
    (name : Option String) (init_args : String)
    → try_spawn (ask starts between node) component name init_args
      ≡ some
          (handle_spawn starts between
            (record { component = component; name = name; init_args = init_args })
            node.registry).0
unfolding try_spawn handle_stream
try_spawn-ask starts between node component name init_args = refl
