-- ===== src/Mailbox.antt =====
-- src/mailbox.rs: a particle's mailbox.
-- Each method locks the mailbox once per pass, so a pass is a function of the locked state. What
-- `Notify` and the timer do while a receiver waits is a list of wakes: the mutex is free then, so
-- each wake first applies what other tasks did to the mailbox meanwhile.
pub mod Count
pub mod Order
pub mod Receive
pub mod Tests
use plasmoid.Prelude.{
  ℕ, ◌+◌, ◌-◌, Bool, true, false, Option, none, some, List, [], ◌∷◌, ◌++◌, if◌then◌else◌, ◌==◌,
  nat_eq, position, remove_at,
}
use plasmoid.Pid.{Pid}
use plasmoid.Message.{ExitReason, SystemMessage}

abbrev pub Bytes : Type 0
Bytes = List ℕ

pub data SpawnFailure : Type 0 where
  component_not_found init_failed resource_limit node_unreachable : SpawnFailure

-- `Result<Pid, SpawnFailure>`
pub data SpawnOutcome : Type 0 where
  spawned : Pid → SpawnOutcome
  failed : SpawnFailure → SpawnOutcome

pub data MailboxMessage : Type 0 where
  bytes : Bytes → MailboxMessage
  tagged : (ref_id : ℕ) (payload : Bytes) → MailboxMessage
  exit : (from : Pid) (reason : ExitReason) → MailboxMessage
  down : (from : Pid) (ref_id : ℕ) (reason : ExitReason) → MailboxMessage
  spawn_reply : (ref_id : ℕ) (outcome : SpawnOutcome) → MailboxMessage

-- The front of the queue is the head of the list.
pub record Mailbox : Type 0 where
  pub queue : List MailboxMessage
  pub data_count : ℕ
  pub closed : Bool

unfoldable pub empty : Mailbox
empty = record { queue = []; data_count = 0; closed = false }

pub data SendResult : Type 0 where
  ok no_particle : SendResult

unfoldable pub push_data : Bytes → Mailbox → SendResult × Mailbox
push_data msg m =
    if m.closed
    then (no_particle, m)
    else (ok, record m { data_count = m.data_count + 1; queue = m.queue ++ bytes msg ∷ [] })

unfoldable pub push_tagged : ℕ → Bytes → Mailbox → SendResult × Mailbox
push_tagged ref_id payload m = if m.closed then (no_particle, m) else (
  ok,
  record m { data_count = m.data_count + 1; queue = m.queue ++ tagged ref_id payload ∷ [] },
)

unfoldable pub push_spawn_reply : ℕ → SpawnOutcome → Mailbox → Mailbox
push_spawn_reply ref_id outcome m =
    if m.closed then m else record m { queue = m.queue ++ spawn_reply ref_id outcome ∷ [] }

abbrev pub from_system : SystemMessage → MailboxMessage
from_system (SystemMessage.exit from reason) = exit from reason
from_system (SystemMessage.down from monitor_ref reason) = down from monitor_ref reason

-- There is no test of `closed` here.
unfoldable pub push_system : SystemMessage → Mailbox → Mailbox
push_system msg m = record m { queue = from_system msg ∷ m.queue }

-- `matches!(msg, Data(_) | Tagged { .. })`
abbrev pub is_counted : MailboxMessage → Bool
is_counted (bytes b) = true
is_counted (tagged r p) = true
is_counted _ = false

abbrev pub is_tagged : MailboxMessage → Bool
is_tagged (tagged r p) = true
is_tagged _ = false

-- The pattern that `recv_ref` looks for.
abbrev pub has_ref : ℕ → MailboxMessage → Bool
has_ref ref_id (tagged r p) = r == ref_id
has_ref ref_id (down f r x) = r == ref_id
has_ref ref_id (spawn_reply r o) = r == ref_id
has_ref ref_id _ = false

-- What one pass under the lock, or a whole receive, comes to: a message, `None`, or neither yet.
pub data Received : Type 0 where
  got : MailboxMessage → Received
  gone : Received
  waiting : Received

abbrev pub if_closed : Mailbox → Received × Mailbox
if_closed m = if m.closed then (gone, m) else (waiting, m)

abbrev pub pop_front : List MailboxMessage → Mailbox → Received × Mailbox
pop_front [] m = if_closed m
pop_front (msg ∷ rest) m = (
  got msg,
  record m { queue = rest; data_count = if is_counted msg then m.data_count - 1 else m.data_count },
)

-- The locked block of `recv`.
unfoldable pub recv_pass : Mailbox → Received × Mailbox
recv_pass m = pop_front m.queue m

abbrev pub take_out : Option (MailboxMessage × List MailboxMessage) → Mailbox → Received × Mailbox
take_out none m = if_closed m
take_out (some (msg, rest)) m = (
  got msg,
  record m { queue = rest; data_count = if is_tagged msg then m.data_count - 1 else m.data_count },
)

abbrev pub remove_found : Option ℕ → Mailbox → Received × Mailbox
remove_found none m = if_closed m
remove_found (some pos) m = take_out (remove_at pos m.queue) m

-- The locked block of `recv_ref`.
unfoldable pub recv_ref_pass : ℕ → Mailbox → Received × Mailbox
recv_ref_pass ref_id m = remove_found (position (has_ref ref_id) m.queue) m

unfoldable pub close : Mailbox → Mailbox
close m = record m { closed = true }

-- What another task may do while a receiver waits. A mailbox has one receiver, its particle.
pub data Op : Type 0 where
  data_op : Bytes → Op
  tagged_op : ℕ → Bytes → Op
  reply_op : ℕ → SpawnOutcome → Op
  system_op : SystemMessage → Op
  close_op : Op

unfoldable pub apply : Op → Mailbox → Mailbox
unfolding push_data push_tagged push_spawn_reply push_system close
apply (data_op msg) m = (push_data msg m).1
apply (tagged_op ref_id payload) m = (push_tagged ref_id payload m).1
apply (reply_op ref_id outcome) m = push_spawn_reply ref_id outcome m
apply (system_op msg) m = push_system msg m
apply close_op m = close m

unfoldable pub apply_all : List Op → Mailbox → Mailbox
apply_all [] m = m
apply_all (op ∷ ops) m = apply_all ops (apply op m)

-- How one wait ends. Only a receive with a timeout can end by `timed_out`.
pub data Wake : Type 0 where
  notified : List Op → Wake
  timed_out : List Op → Wake

-- The loop that `recv` and `recv_ref` share, over the locked block of either; `waiting` at the end
-- says that the receiver still waits when the wakes are over.
unfoldable pub recv_loop :
    (Mailbox → Received × Mailbox) → Bool → List Wake → Mailbox → Received × Mailbox
recv_loop pass timeout [] m = pass m
recv_loop pass timeout (notified ops ∷ wakes) m =
    let again = recv_loop pass timeout wakes (apply_all ops (pass m).1) in
    elim (pass m).0 [ waiting ↦ again | _ ↦ pass m ]
recv_loop pass timeout (timed_out ops ∷ wakes) m =
    let again = recv_loop pass timeout wakes (apply_all ops (pass m).1) in
    elim (pass m).0 [
      | waiting ↦ if timeout then (gone, apply_all ops (pass m).1) else again
      | _ ↦ pass m
    ]

unfoldable pub recv : Bool → List Wake → Mailbox → Received × Mailbox
recv = recv_loop recv_pass

unfoldable pub recv_ref : ℕ → Bool → List Wake → Mailbox → Received × Mailbox
recv_ref ref_id = recv_loop (recv_ref_pass ref_id)
