-- ===== src/Global/Claim.antt =====
-- src/global.rs: `try_claim` and `unregister`, step by step, over the tables of all nodes.
-- Between two steps of a claim other nodes take theirs, so a claim is a state machine: each step
-- is one request to one node. The network decides whether a request to another node is answered.
pub mod Reads
pub mod Requests
pub mod OneOwner
pub mod Ends
pub mod Split
use plasmoid.Prelude.{String, Option, none, some, List, [], ◌∷◌, ◌++◌, if◌then◌else◌, ◌==◌, nat_eq}
use plasmoid.Pid.{Pid, EndpointId}
use plasmoid.Global.{
  GlobalNames, GlobalRequest, GlobalResponse, lock, unlock, commit, locked, busy, taken, apply,
}

-- The table of each node.
abbrev pub Tables : Type 0
Tables = EndpointId → GlobalNames

abbrev pub put : EndpointId → GlobalNames → Tables → Tables
put node g w = λ m. if m == node then g else w m

-- What becomes of a request to another node: it never arrives, it is applied but the reply does
-- not come back, or it is answered.
pub data Fate : Type 0 where
  lost unanswered answered : Fate

-- `ask`, from `me`: the local shortcut, or `ask_remote`.
abbrev pub ask_remote : Fate → EndpointId → GlobalRequest → Tables → Option GlobalResponse × Tables
ask_remote lost node req w = (none, w)
ask_remote unanswered node req w = (none, put node (apply req (w node)).1 w)
ask_remote answered node req w = (some (apply req (w node)).0, put node (apply req (w node)).1 w)

unfoldable pub ask :
    Fate → EndpointId → EndpointId → GlobalRequest → Tables → Option GlobalResponse × Tables
unfolding apply
ask fate me node req w = ask_remote (if node == me then answered else fate) node req w

-- `Result<(), ClaimError>` of `try_claim`.
pub data ClaimResult : Type 0 where
  claimed : ClaimResult
  is_taken : Pid → ClaimResult
  unsettled : ClaimResult

-- Where a claim stands: the members still to ask, and those whose lock is held.
pub data Phase : Type 0 where
  locking : (todo held : List EndpointId) → Phase
  committing : (todo held : List EndpointId) → Phase
  unlocking : (todo : List EndpointId) (result : ClaimResult) → Phase
  finished : ClaimResult → Phase

abbrev pub after_lock :
    Option GlobalResponse → EndpointId → List EndpointId → List EndpointId → Phase
after_lock (some locked) node todo held = locking todo (held ++ node ∷ [])
after_lock (some (taken pid)) node todo held = unlocking held (is_taken pid)
after_lock _ node todo held = unlocking held unsettled

-- One step of the claim of `name` for `pid` by the node `me`.
unfoldable pub step_claim : Fate → EndpointId → String → Pid → Phase → Tables → Phase × Tables
unfolding ask
step_claim fate me name pid (locking [] held) w = (committing held held, w)
step_claim fate me name pid (locking (node ∷ todo) held) w =
    let reply = ask fate me node (lock name me) w in (after_lock reply.0 node todo held, reply.1)
step_claim fate me name pid (committing [] held) w = (unlocking held claimed, w)
step_claim fate me name pid (committing (node ∷ todo) held) w =
    (committing todo held, (ask fate me node (commit name pid me) w).1)
step_claim fate me name pid (unlocking [] result) w = (finished result, w)
step_claim fate me name pid (unlocking (node ∷ todo) result) w =
    (unlocking todo result, (ask fate me node (unlock name me) w).1)
step_claim fate me name pid (finished result) w = (finished result, w)

-- `try_claim` by itself, one fate for each step; the phase that it reaches and the tables then.
unfoldable pub run_claim : List Fate → EndpointId → String → Pid → Phase → Tables → Phase × Tables
unfolding step_claim
run_claim [] me name pid phase w = (phase, w)
run_claim (fate ∷ fates) me name pid phase w =
    let next = step_claim fate me name pid phase w in run_claim fates me name pid next.0 next.1

unfoldable pub try_claim :
    List Fate → EndpointId → String → Pid → List EndpointId → Tables → Phase × Tables
unfolding run_claim
try_claim fates me name pid members w = run_claim fates me name pid (locking members []) w
