-- ===== src/Host/Receiving.antt =====
-- src/runtime/invoke.rs: what a particle receives, in the types of its interface, and the spawns whose
-- outcome arrives as a message. A handle that the host pushes is the pid that it is pushed for.
pub mod Replies
use plasmoid.Prelude.{ℕ, String, Bool, Option, none, some, List}
use plasmoid.Pid.{Pid, EndpointId}
use plasmoid.Pid.Key.{NodeIds, Text}
use plasmoid.Message.{ExitReason}
use plasmoid.Message
use plasmoid.Mailbox.{
  Bytes, SpawnFailure, SpawnOutcome, MailboxMessage, Mailbox, Wake, Received, push_spawn_reply,
}
use plasmoid.Mailbox
use plasmoid.Registry.State.{ParticleRegistry}
use plasmoid.Protocol.Serve.{SpawnResponse}
use plasmoid.Host.{HostState, next_ref}
use plasmoid.Host.Spawning.{Between, remote_spawn}

-- `exit-reason` of the interface.
pub data WitExitReason : Type 0 where
  normal kill killed : WitExitReason
  shutdown : String → WitExitReason
  exception : String → WitExitReason
  noproc noconnection : WitExitReason

unfoldable pub wit_exit_reason_to_internal : WitExitReason → ExitReason
wit_exit_reason_to_internal normal = Message.normal
wit_exit_reason_to_internal kill = Message.kill
wit_exit_reason_to_internal killed = Message.killed
wit_exit_reason_to_internal (shutdown s) = Message.shutdown s
wit_exit_reason_to_internal (exception s) = Message.exception s
wit_exit_reason_to_internal noproc = Message.no_proc
wit_exit_reason_to_internal noconnection = Message.no_connection

unfoldable pub internal_exit_reason_to_wit : ExitReason → WitExitReason
internal_exit_reason_to_wit Message.normal = normal
internal_exit_reason_to_wit Message.kill = kill
internal_exit_reason_to_wit Message.killed = killed
internal_exit_reason_to_wit (Message.shutdown s) = shutdown s
internal_exit_reason_to_wit (Message.exception s) = exception s
internal_exit_reason_to_wit Message.no_proc = noproc
internal_exit_reason_to_wit Message.no_connection = noconnection

pub data SpawnError : Type 0 where
  component_not_found init_failed resource_limit node_unreachable : SpawnError

unfoldable pub spawn_failure_to_wit : SpawnFailure → SpawnError
spawn_failure_to_wit Mailbox.component_not_found = component_not_found
spawn_failure_to_wit Mailbox.init_failed = init_failed
spawn_failure_to_wit Mailbox.resource_limit = resource_limit
spawn_failure_to_wit Mailbox.node_unreachable = node_unreachable

-- `result<pid, spawn-error>`
pub data WitOutcome : Type 0 where
  spawned : Pid → WitOutcome
  not_spawned : SpawnError → WitOutcome

abbrev pub outcome_to_wit : SpawnOutcome → WitOutcome
outcome_to_wit (Mailbox.spawned p) = spawned p
outcome_to_wit (Mailbox.failed e) = not_spawned (spawn_failure_to_wit e)

pub data WitMessage : Type 0 where
  data_message : Bytes → WitMessage
  tagged_message : (ref_id : ℕ) (payload : Bytes) → WitMessage
  exit_message : (sender : Pid) (reason : WitExitReason) → WitMessage
  down_message : (sender : Pid) (ref_id : ℕ) (reason : WitExitReason) → WitMessage
  spawn_reply : (ref_id : ℕ) (outcome : WitOutcome) → WitMessage

unfoldable pub mailbox_message_to_wit : MailboxMessage → WitMessage
unfolding internal_exit_reason_to_wit spawn_failure_to_wit
mailbox_message_to_wit (Mailbox.bytes payload) = data_message payload
mailbox_message_to_wit (Mailbox.tagged ref_id payload) = tagged_message ref_id payload
mailbox_message_to_wit (Mailbox.exit from reason) =
    exit_message from (internal_exit_reason_to_wit reason)
mailbox_message_to_wit (Mailbox.down from ref_id reason) =
    down_message from ref_id (internal_exit_reason_to_wit reason)
mailbox_message_to_wit (Mailbox.spawn_reply ref_id outcome) =
    spawn_reply ref_id (outcome_to_wit outcome)

-- What a receive gives the particle; `waits` is one that has not ended.
pub data Delivery : Type 0 where
  message : WitMessage → Delivery
  nothing : Delivery
  waits : Delivery

abbrev pub delivery_of : Received × Mailbox → Delivery × Mailbox
delivery_of (Mailbox.got msg, m) = (message (mailbox_message_to_wit msg), m)
delivery_of (Mailbox.gone, m) = (nothing, m)
delivery_of (Mailbox.waiting, m) = (waits, m)

unfoldable pub recv : Bool → List Wake → Mailbox → Delivery × Mailbox
unfolding Mailbox.recv mailbox_message_to_wit
recv timeout wakes m = delivery_of (Mailbox.recv timeout wakes m)

unfoldable pub recv_ref : ℕ → Bool → List Wake → Mailbox → Delivery × Mailbox
unfolding Mailbox.recv_ref mailbox_message_to_wit
recv_ref ref_id timeout wakes m = delivery_of (Mailbox.recv_ref ref_id timeout wakes m)

-- `spawn_request`: the reference that it returns at once.
unfoldable pub spawn_request : HostState → ℕ × HostState
unfolding next_ref
spawn_request h = next_ref h

-- The task that it starts: the mailbox and the registry after.
unfoldable pub spawn_task :
    ⦃ids : NodeIds⦄
    → ℕ
    → Text
    → (EndpointId → Option SpawnResponse)
    → Bool
    → String
    → Option String
    → Between
    → HostState
    → ParticleRegistry
    → Mailbox
    → Mailbox × ParticleRegistry
unfolding remote_spawn push_spawn_reply
spawn_task ref_id node remote starts component name between h r m =
    let (outcome, r') = remote_spawn node remote starts component name between h r in
    (push_spawn_reply ref_id outcome m, r')
