-- ===== src/Host/Tests.antt =====
-- Runs of src/runtime/invoke.rs on two nodes, 5 and 7, over small encodings.
use plasmoid.Prelude.{ℕ, ◌≡◌, refl, true, false, none, some, [], ◌∷◌, nat_eq, string_eq}
use plasmoid.Prelude.Map.{get, contains_key}
use plasmoid.Pid.{pid_eq, next, is_local_to}
use plasmoid.Pid.Key.{NodeIds, Text, parse_node}
use plasmoid.Pid.Key.Tests.{small_ids}
use plasmoid.Message.{no_proc, normal, kill, is_abnormal}
use plasmoid.Mailbox.{Bytes, init_failed, failed, Mailbox, bytes}
use plasmoid.Mailbox
use plasmoid.Registry.State.{fresh_state, with_state}
use plasmoid.Registry.Send.{deliver_exit, deliver_down, get_by_name, particle_exists}
use plasmoid.Registry.Relate.{add_monitor}
use plasmoid.Transport
use plasmoid.Transport.{Wire, bare}
use plasmoid.Transport.SmallWire.{small_wire}
use plasmoid.Transport.Frame.{encode_frame}
use plasmoid.Transport.Links.Queues.{new-IsLinked}
use plasmoid.Protocol.{handle_peer_message}
use plasmoid.Protocol.Tests.{registry_of, node_of, pid_at}
use plasmoid.Host.{
  HostState, host_state, pid_handle, local_named, elsewhere, resolve_local, deliver_to, link,
  monitor, next_ref,
}
use plasmoid.Host.Reach.{Sent, deliver_to-reaches}
use plasmoid.Host.Dead.{dead_here}
use plasmoid.Host.Spawning
use plasmoid.Host.Spawning.Unstarted.{spawn-unstarted}
use plasmoid.Host.Spawning.Remote.{remote_spawn-reaches}
use plasmoid.Host.Receiving.{message, spawn_reply, outcome_to_wit, recv_ref, spawn_task}
use plasmoid.Host.Receiving.Replies.{spawn_task-recv_ref}
use plasmoid.Host.Monitored.{Monitored, monitor-carries_death}
use plasmoid.Host.Linked.{Carried, link-carries_death}
use plasmoid.Protocol.Serve.{SpawnRequest, handle_spawn}

instance abbrev wire : Wire
wire = small_wire

instance abbrev ids : NodeIds
ids = small_ids

-- The first particle's own state.
abbrev host_of : ℕ → HostState
unfolding host_state
host_of me = host_state (pid_at me 1) (some me) true true

abbrev greeting : Transport.Envelope
greeting = record { target = Transport.pid (pid_at 7 1); ref_id = none; payload = 42 ∷ [] }

abbrev greeting_frame : Bytes
greeting_frame = 4 ∷ 0 ∷ 0 ∷ 0 ∷ 0 ∷ 7 ∷ 1 ∷ 42 ∷ []

is_away :
    resolve_local (pid_handle (some (pid_at 7 1))) (host_of 5)
    ≡ elsewhere 7 (Transport.pid (pid_at 7 1))
unfolding host_of resolve_local
is_away = refl

is_encoded : encode_frame (Transport.deliver greeting) ≡ some greeting_frame
unfolding encode_frame
is_encoded = refl

deliver_to-reaches_example :
    Sent 7
      (Transport.deliver greeting)
      greeting_frame
      (node_of 5)
      (deliver_to (pid_handle (some (pid_at 7 1))) none (42 ∷ []) (host_of 5) (node_of 5))
    × (handle_peer_message (Transport.deliver greeting) 0 (node_of 7)
        ≡ some (deliver_to (pid_handle (some (pid_at 7 1))) none (42 ∷ []) (host_of 7) (node_of 7)))
unfolding node_of host_of
deliver_to-reaches_example =
    deliver_to-reaches (pid_handle (some (pid_at 7 1))) none (42 ∷ []) greeting_frame (host_of 5)
      (host_of 7) (node_of 5) (node_of 7) 7 (Transport.pid (pid_at 7 1)) 0 is_away refl
      (new-IsLinked (bare 5)) is_encoded refl refl

dead_here_example :
    (link (pid_handle (some (pid_at 5 9))) (host_of 5) (node_of 5) ≡ record (node_of 5) {
      registry = deliver_exit (pid_at 5 1) (pid_at 5 1) no_proc (node_of 5).registry;
    })
    × ((monitor (pid_handle (some (pid_at 5 9))) (host_of 5) (node_of 5)).2 ≡ record (node_of 5) {
      registry = with_state (pid_at 5 1) (add_monitor 1 (pid_at 5 9)) (node_of 5).registry;
    })
    × ((monitor (local_named "nobody") (host_of 5) (node_of 5)).2 ≡ record (node_of 5) {
      registry = deliver_down (pid_at 5 1) (pid_at 5 1) 1 no_proc (node_of 5).registry;
    })
unfolding node_of host_of get get_by_name
dead_here_example = dead_here (pid_at 5 9) "nobody" (host_of 5) (node_of 5) refl refl refl refl

spawn-unstarted_example :
    ((Spawning.spawn false "worker" (some "w") (λ q. q) (host_of 5) (registry_of 5)).0
      ≡ failed init_failed)
    × (get_by_name "w"
          (Spawning.spawn false "worker" (some "w") (λ q. q) (host_of 5) (registry_of 5)).1
        ≡ some (pid_at 5 2))
    × (particle_exists
          (pid_at 5 2)
          (Spawning.spawn false "worker" (some "w") (λ q. q) (host_of 5) (registry_of 5)).1
        ≡ true)
    × ((Spawning.spawn true "worker"
          (some "w")
          (λ q. q)
          (host_of 5)
          (Spawning.spawn false "worker" (some "w") (λ q. q) (host_of 5) (registry_of 5)).1).0
        ≡ failed init_failed)
unfolding registry_of host_of get contains_key next
spawn-unstarted_example =
    spawn-unstarted "worker" "w" [] true (λ q. q) (host_of 5) (registry_of 5) refl refl refl

-- The text of node 7, and a request.
abbrev to_seven : Text
to_seven = ids.hex_encode (ids.as_bytes 7)

abbrev wanted : SpawnRequest
wanted = record { component = "worker"; name = none; init_args = "" }

link-carries_death_example :
    Carried
      (pid_handle (some (pid_at 7 1)))
      (pid_at 7 1)
      false
      kill
      (host_of 5)
      (node_of 5)
      (node_of 7)
      7
      0
      60
unfolding node_of host_of get is_local_to is_abnormal
link-carries_death_example =
    link-carries_death (pid_handle (some (pid_at 7 1))) (pid_at 7 1) (fresh_state 0) (fresh_state 0)
      kill (host_of 5) (node_of 5) (node_of 7) 7 0 60 is_away refl refl refl refl refl

remote_spawn-reaches_example :
    (Spawning.remote_spawn to_seven
        (λ n. some (handle_spawn true (λ q. q) wanted (registry_of 7)).0)
        false
        "worker"
        none
        (λ q. q)
        (host_of 5)
        (registry_of 5)
      ≡ (
        (Spawning.remote_spawn to_seven
            (λ n. none)
            true
            "worker"
            none
            (λ q. q)
            (host_of 7)
            (registry_of 7)).0,
        registry_of 5,
      ))
    × ((handle_spawn true (λ q. q) wanted (registry_of 7)).1
        ≡ (Spawning.remote_spawn to_seven
            (λ n. none)
            true
            "worker"
            none
            (λ q. q)
            (host_of 7)
            (registry_of 7)).1)
unfolding host_of parse_node
remote_spawn-reaches_example =
    remote_spawn-reaches to_seven true false wanted (λ q. q) (λ q. q) (λ n. none) (host_of 5)
      (host_of 7) (registry_of 5) (registry_of 7) 5 7 refl refl refl refl refl refl

-- A mailbox with one message, and a request to a node that is not reached.
abbrev waiting_mail : Mailbox
waiting_mail = record { queue = bytes (42 ∷ []) ∷ []; data_count = 1; closed = false }

spawn_task-recv_ref_example :
    recv_ref 1 true []
      (spawn_task 1 to_seven
        (λ n. none)
        true
        "worker"
        none
        (λ q. q)
        (host_of 5)
        (registry_of 5)
        waiting_mail).0
    ≡ (
      message (
          spawn_reply 1 (
            outcome_to_wit
              (Spawning.remote_spawn to_seven
                (λ n. none)
                true
                "worker"
                none
                (λ q. q)
                (host_of 5)
                (registry_of 5)).0)),
      waiting_mail,
    )
spawn_task-recv_ref_example =
    spawn_task-recv_ref 1 to_seven (λ n. none) true "worker" none (λ q. q) (host_of 5)
      (registry_of 5) waiting_mail true [] refl (refl, tt)

still_away :
    resolve_local (pid_handle (some (pid_at 7 1))) (next_ref (host_of 5)).1
    ≡ elsewhere 7 (Transport.pid (pid_at 7 1))
unfolding host_of resolve_local next_ref
still_away = refl

monitor-carries_death_example :
    Monitored
      (pid_handle (some (pid_at 7 1)))
      (pid_at 7 1)
      normal
      (host_of 5)
      (node_of 5)
      (node_of 7)
      (node_of 5)
      (fresh_state 0)
      Mailbox.empty
      7
      0
      60
unfolding node_of host_of get is_local_to
monitor-carries_death_example =
    monitor-carries_death (pid_handle (some (pid_at 7 1))) (pid_at 7 1) (fresh_state 0)
      (fresh_state 0) Mailbox.empty normal (host_of 5) (node_of 5) (node_of 7) (node_of 5) 7 0 60
      still_away refl refl refl refl refl refl
