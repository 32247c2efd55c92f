-- ===== src/Sdk/DynamicDriver.antt =====
-- crates/plasmoid-sdk/src/supervise.rs: `run_dynamic_supervisor!` and the commands that it serves.
-- As in Driver, what the host answers is an argument and what it is asked for is a list of effects.
pub mod Commands
pub mod Stuck
mod Tests
use plasmoid.Prelude.{
  ℕ, ◌+◌, ◌%◌, String, Bool, true, false, Option, none, some, List, [], ◌∷◌, ◌++◌, if◌then◌else◌,
  ◌==◌, string_eq, u64_mod,
}
use plasmoid.Prelude.Map.{Map, get, remove}
use plasmoid.Sdk.Spec.{
  ExitReason, kill, ChildSpec, Shutdown, brutal_kill, timeout, infinity, SupFlags, Action, start,
  stop, give_up,
}
use plasmoid.Sdk.Dynamic.{
  DynamicSupervisor, new, StartResult, started, duplicate_id, start_child, terminate_child,
  on_child_exit,
}
use plasmoid.Sdk.Driver.{stopping, overdue, id_of}

pub data SupervisorOp : Type 0 where
  start_child_op : ChildSpec → SupervisorOp
  terminate_child_op : String → SupervisorOp

pub record SupervisorCommand : Type 0 where
  pub reply_to : String
  pub op : SupervisorOp

-- A refusal's text is kept as what it is about.
pub data SupervisorReply : Type 0 where
  started_child : String → SupervisorReply
  terminated : SupervisorReply
  refused_duplicate : String → SupervisorReply
  refused_unknown : String → SupervisorReply

-- `signal key reason` is the macro `signal!`; `send_ref` answers a command.
pub data Effect : Type 0 where
  trap_exit : Bool → Effect
  spawn_link : (component init_args : String) → Effect
  signal : (key : String) (reason : ExitReason) → Effect
  send_ref : (to : String) (ref_id : ℕ) (reply : SupervisorReply) → Effect
  log_error : String → Effect
  exit : ExitReason → Effect

pub record DynamicDriver : Type 0 where
  pub sup : DynamicSupervisor
  pub live : Map String String
  pub pending : Map String ℕ
  pub queue : List Action
  pub effects : List Effect
  pub ended : Bool

unfoldable pub boot : SupFlags → DynamicDriver
unfolding new
boot flags = record {
  sup = new flags;
  live = [];
  pending = [];
  queue = [];
  effects = trap_exit true ∷ [];
  ended = false;
}

abbrev pub emit : Effect → DynamicDriver → DynamicDriver
emit e d = record d { effects = d.effects ++ e ∷ [] }

-- A child that cannot be started is only logged.
unfoldable pub note_start : ChildSpec → Option String → DynamicDriver → DynamicDriver
note_start spec (some key) d = record d { live = remove spec.id d.live ++ (spec.id, key) ∷ [] }
note_start spec none d = emit (log_error spec.id) d

unfoldable pub stop_instance : String → String → Shutdown → ℕ → DynamicDriver → DynamicDriver
stop_instance id key brutal_kill now d =
    let asked = emit (signal key kill) d in record asked { live = remove id asked.live }
stop_instance id key (timeout ms) now d =
    let asked = emit (signal key stopping) d in
    record asked { pending = asked.pending ++ (id, (now + ms) % u64_mod) ∷ [] }
stop_instance id key infinity now d = emit (signal key stopping) d

unfoldable pub stop_if_live : String → Option String → Shutdown → ℕ → DynamicDriver → DynamicDriver
unfolding stop_instance
stop_if_live id none how now d = d
stop_if_live id (some key) how now d = stop_instance id key how now d

-- One action, at the time `now`, with the host's answer to the spawn that it may ask for.
unfoldable pub act : ℕ → Option String → Action → DynamicDriver → DynamicDriver
unfolding note_start stop_if_live
act now answer (start spec) d =
    note_start spec answer (emit (spawn_link spec.start.component spec.start.init_args) d)
act now answer (stop id how) d = stop_if_live id (get id d.live) how now d
act now answer give_up d =
    record (emit (exit stopping) (emit (log_error "restart intensity exceeded") d)) { ended = true }

-- Drain the actions, a batch at a time. Each takes one answer of the host; `none` says that the
-- answers ran out before the queue was empty.
unfoldable pub drain : List (ℕ × Option String) → List Action → DynamicDriver → Option DynamicDriver
unfolding act
drain [] [] d = elim d.queue [ [] ↦ some d | _ ↦ none ]
drain [] (a ∷ batch) d = none
drain ((now, answer) ∷ answers) [] d = elim d.queue [
  | [] ↦ some d
  | a ∷ batch ↦
      let next = act now answer a (record d { queue = [] }) in
      let rest = drain answers batch next in if next.ended then some next else rest
]
drain ((now, answer) ∷ answers) (a ∷ batch) d =
    let next = act now answer a d in
    let rest = drain answers batch next in if next.ended then some next else rest

unfoldable pub kill_if_live : String → Option String → DynamicDriver → DynamicDriver
kill_if_live id none d = d
kill_if_live id (some key) d =
    let killed = emit (signal key kill) d in record killed { live = remove id killed.live }

unfoldable pub kill_overdue : List String → DynamicDriver → DynamicDriver
unfolding kill_if_live
kill_overdue [] d = d
kill_overdue (id ∷ ids) d =
    let killed = kill_if_live id (get id d.live) d in
    kill_overdue ids (record killed { pending = remove id killed.pending })

abbrev pub start_reply :
    StartResult × DynamicSupervisor → String → DynamicDriver → SupervisorReply × DynamicDriver
start_reply (started action, sup) id d =
    (started_child id, record d { sup = sup; queue = d.queue ++ action ∷ [] })
start_reply (duplicate_id taken, sup) id d = (refused_duplicate taken, record d { sup = sup })

abbrev pub terminate_reply :
    Option Action × DynamicSupervisor → String → DynamicDriver → SupervisorReply × DynamicDriver
terminate_reply (some action, sup) id d =
    (terminated, record d { sup = sup; queue = d.queue ++ action ∷ [] })
terminate_reply (none, sup) id d = (refused_unknown id, record d { sup = sup })

unfoldable pub run_op : SupervisorOp → DynamicDriver → SupervisorReply × DynamicDriver
unfolding start_child terminate_child
run_op (start_child_op spec) d = start_reply (start_child spec d.sup) spec.id d
run_op (terminate_child_op id) d = terminate_reply (terminate_child id d.sup) id d

-- A reply is sent if the caller's pid still resolves.
abbrev pub answer_caller : Bool → String → ℕ → SupervisorReply × DynamicDriver → DynamicDriver
answer_caller resolves to ref_id (reply, d) =
    if resolves then emit (send_ref to ref_id reply) d else d

-- A tagged message, from what it is decoded to; there is nobody to answer if that fails.
unfoldable pub on_tagged : ℕ → Option SupervisorCommand → Bool → DynamicDriver → DynamicDriver
unfolding run_op
on_tagged ref_id none resolves d = d
on_tagged ref_id (some cmd) resolves d =
    answer_caller resolves cmd.reply_to ref_id (run_op cmd.op d)

-- What `host::recv` gives.
pub data Received : Type 0 where
  exit_of : (sender : String) (reason : ExitReason) → Received
  tagged : (ref_id : ℕ) (decoded : Option SupervisorCommand) (resolves : Bool) → Received
  other : Received
  nothing : Received

unfoldable pub exit_of_child : Option String → ExitReason → ℕ → DynamicDriver → DynamicDriver
unfolding on_child_exit
exit_of_child none reason now d = d
exit_of_child (some id) reason now d =
    let (actions, sup) = on_child_exit id reason now d.sup in
    record d {
      sup = sup;
      live = remove id d.live;
      pending = remove id d.pending;
      queue = d.queue ++ actions;
    }

unfoldable pub on_received : ℕ → Received → DynamicDriver → DynamicDriver
unfolding exit_of_child on_tagged overdue kill_overdue
on_received now (exit_of sender reason) d = exit_of_child (id_of sender d.live) reason now d
on_received now (tagged ref_id decoded resolves) d = on_tagged ref_id decoded resolves d
on_received now other d = d
on_received now nothing d = kill_overdue (overdue now d.pending) d
