-- ===== src/Global/Claim/Split.antt =====
-- `try_claim` of src/global.rs, with `lock` in its two steps: it reads the names under one lock, gives
-- that up, and only then waits for the lock of the locks, so that other requests to the node can be
-- handled between the two.
pub mod Locks
pub mod Good
use plasmoid.Prelude.{String, Option, none, some, List, ◌∷◌, if◌then◌else◌, ◌==◌, string_eq, nat_eq}
use plasmoid.Prelude.Map.{get}
use plasmoid.Pid.{Pid, EndpointId}
use plasmoid.Global.{GlobalResponse, lock_unless_taken}
use plasmoid.Global.Claim.{
  Tables, put, Fate, lost, unanswered, answered, Phase, is_taken, unsettled, locking, unlocking,
  after_lock, step_claim,
}

-- A phase of the claim, or a node has found the name free and its handler is about to lock it.
pub data SplitPhase : Type 0 where
  at : Phase → SplitPhase
  checked : (fate : Fate) (node : EndpointId) (todo held : List EndpointId) → SplitPhase

-- What comes of the first step of a lock request, from the name's holder at the node.
abbrev pub after_check :
    Fate → Option Pid → EndpointId → List EndpointId → List EndpointId → SplitPhase
after_check lost holder node todo held = at (unlocking held unsettled)
after_check unanswered (some pid) node todo held = at (unlocking held unsettled)
after_check answered (some pid) node todo held = at (unlocking held (is_taken pid))
after_check fate none node todo held = checked fate node todo held

abbrev pub replied : Fate → GlobalResponse → Option GlobalResponse
replied answered reply = some reply
replied _ reply = none

unfoldable pub split_step :
    Fate → EndpointId → String → Pid → SplitPhase → Tables → SplitPhase × Tables
unfolding step_claim
split_step fate me name pid (checked sent node todo held) w =
    let (reply, g) = lock_unless_taken none name me (w node) in
    (at (after_lock (replied sent reply) node todo held), put node g w)
split_step fate me name pid (at (locking (node ∷ todo) held)) w = (
  after_check (if node == me then answered else fate) (get name (w node).names) node todo held,
  w,
)
split_step fate me name pid (at phase) w =
    let next = step_claim fate me name pid phase w in (at next.0, next.1)
