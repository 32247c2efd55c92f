-- ===== src/Sdk/Driver.antt =====
-- crates/plasmoid-sdk/src/supervise.rs: `run_supervisor!`, which acts on a supervisor's actions.
-- The host is outside: what it answers (the clock, a spawn, a receive) is an argument of each step,
-- and what it is asked for is a list of effects, the oldest first.
pub mod Stale
mod Tests
use plasmoid.Prelude.{
  ℕ, ◌+◌, ◌-◌, ◌%◌, String, Bool, true, false, Option, none, some, List, [], ◌∷◌, ◌++◌, map, leb,
  ltb, if◌then◌else◌, ◌==◌, string_eq, filter, find?, u64_mod,
}
use plasmoid.Prelude.Map.{Map, get, remove}
use plasmoid.Sdk.Spec.{
  ExitReason, kill, exception, shutdown, ChildSpec, Shutdown, brutal_kill, timeout, infinity,
  SupFlags, Action, start, stop, give_up,
}
use plasmoid.Sdk.Supervisor.{Supervisor, new, init, on_child_exit}

-- `signal key reason` is the macro `signal!`: it resolves the pid string, and sends if it can.
pub data Effect : Type 0 where
  trap_exit : Bool → Effect
  spawn_link : (component init_args : String) → Effect
  signal : (key : String) (reason : ExitReason) → Effect
  log_error : String → Effect
  log_warn : String → Effect
  exit : ExitReason → Effect

pub record Driver : Type 0 where
  pub sup : Supervisor
  -- id -> the pid string of the running instance
  pub live : Map String String
  -- children asked to stop, and when patience runs out
  pub pending : Map String ℕ
  pub queue : List Action
  pub effects : List Effect
  -- the loop was left by `break 'supervising`
  pub ended : Bool

unfoldable pub boot : SupFlags → List ChildSpec → Driver
unfolding new init
boot flags children =
    let started = init (new flags children) in
    record {
      sup = started.1;
      live = [];
      pending = [];
      queue = started.0;
      effects = trap_exit true ∷ [];
      ended = false;
    }

abbrev pub emit : Effect → Driver → Driver
emit e d = record d { effects = d.effects ++ e ∷ [] }

-- `queue.extend(sup.on_child_exit(..))`
unfoldable pub report_exit : String → ExitReason → ℕ → Driver → Driver
report_exit id reason now d =
    let decided = on_child_exit id reason now d.sup in
    record d { sup = decided.1; queue = d.queue ++ decided.0 }

-- `live.retain(|(cid, _)| *cid != id)`
abbrev pub drop_live : String → Driver → Driver
drop_live id d = record d { live = remove id d.live }

abbrev pub drop_pending : String → Driver → Driver
drop_pending id d = record d { pending = remove id d.pending }

abbrev pub stopping : ExitReason
stopping = shutdown "shutdown"

unfoldable pub stop_instance : String → String → Shutdown → ℕ → Driver → Driver
stop_instance id key brutal_kill now d = drop_live id (emit (signal key kill) d)
stop_instance id key (timeout ms) now d =
    let asked = emit (signal key stopping) d in
    record asked { pending = asked.pending ++ (id, (now + ms) % u64_mod) ∷ [] }
stop_instance id key infinity now d = emit (signal key stopping) d

-- The result of a spawn is the new pid's string, or nothing.
unfoldable pub note_start : ChildSpec → Option String → ℕ → Driver → Driver
unfolding report_exit
note_start spec (some key) now d = record d { live = remove spec.id d.live ++ (spec.id, key) ∷ [] }
note_start spec none now d =
    report_exit spec.id (exception "start failed") now (emit (log_error spec.id) d)

unfoldable pub stop_if_live : String → Option String → Shutdown → ℕ → Driver → Driver
unfolding stop_instance
stop_if_live id none sd now d = d
stop_if_live id (some key) sd now d = stop_instance id key sd now d

-- One action, at the time `now`, with the host's answer to the spawn that it may ask for.
unfoldable pub act : ℕ → Option String → Action → Driver → Driver
unfolding note_start stop_if_live
act now answer (start spec) d =
    note_start spec answer now (emit (spawn_link spec.start.component spec.start.init_args) d)
act now answer (stop id sd) d = stop_if_live id (get id d.live) sd now d
act now answer give_up d =
    record (emit (exit stopping) (emit (log_error "restart intensity exceeded") d)) { ended = true }

-- Drain the actions, a batch at a time. Each takes one answer of the host; `none` says that the
-- answers ran out before the queue was empty.
unfoldable pub drain : List (ℕ × Option String) → List Action → Driver → Option Driver
unfolding act
drain [] [] d = elim d.queue [ [] ↦ some d | _ ↦ none ]
drain [] (a ∷ batch) d = none
drain ((now, answer) ∷ answers) [] d = elim d.queue [
  | [] ↦ some d
  | a ∷ batch ↦
      let next = act now answer a (record d { queue = [] }) in
      let rest = drain answers batch next in if next.ended then some next else rest
]
drain ((now, answer) ∷ answers) (a ∷ batch) d =
    let next = act now answer a d in
    let rest = drain answers batch next in if next.ended then some next else rest

-- The nearest patience deadline, as a wait.
abbrev pub min_opt : ℕ → Option ℕ → Option ℕ
min_opt n none = some n
min_opt n (some m) = if leb n m then some n else some m

unfoldable pub next_timeout : ℕ → Map String ℕ → Option ℕ
next_timeout now [] = none
next_timeout now ((id, deadline) ∷ p) = min_opt (deadline - now) (next_timeout now p)

-- The overdue ids, in order.
unfoldable pub overdue : ℕ → Map String ℕ → List String
overdue now p = map (λ e. e.0) (filter (λ e. leb e.1 now) p)

unfoldable pub kill_if_live : String → Option String → Driver → Driver
kill_if_live id none d = d
kill_if_live id (some key) d = drop_live id (emit (signal key kill) (emit (log_warn id) d))

unfoldable pub kill_overdue : List String → Driver → Driver
unfolding kill_if_live
kill_overdue [] d = d
kill_overdue (id ∷ ids) d = kill_overdue ids (drop_pending id (kill_if_live id (get id d.live) d))

-- What `host::recv` gives: an exit message, another message, or nothing before the timeout.
pub data Received : Type 0 where
  exit_of : (sender : String) (reason : ExitReason) → Received
  other : Received
  nothing : Received

abbrev pub id_of : String → Map String String → Option String
id_of key live = elim (find? (λ e. e.1 == key) live) [ none ↦ none | some e ↦ some e.0 ]

unfoldable pub exit_of_child : Option String → ExitReason → ℕ → Driver → Driver
unfolding report_exit
exit_of_child none reason now d = d
exit_of_child (some id) reason now d = report_exit id reason now (drop_pending id (drop_live id d))

unfoldable pub on_received : ℕ → Received → Driver → Driver
unfolding exit_of_child overdue kill_overdue
on_received now (exit_of sender reason) d = exit_of_child (id_of sender d.live) reason now d
on_received now other d = d
on_received now nothing d = kill_overdue (overdue now d.pending) d
