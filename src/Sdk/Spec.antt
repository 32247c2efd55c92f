-- ===== src/Sdk/Spec.antt =====
-- crates/plasmoid-sdk/src/supervisor.rs: the data that a supervisor holds and the actions that it
-- asks for, and the restart window that both kinds of supervisor keep.
use plasmoid.Prelude.{ℕ, ◌^◌, ◌%◌, String, Bool, true, false, List, [], ◌∷◌, ltb, if◌then◌else◌}

-- The SDK's own mirror of the host's exit reasons.
pub data ExitReason : Type 0 where
  normal kill killed : ExitReason
  shutdown : String → ExitReason
  exception : String → ExitReason
  no_proc no_connection : ExitReason

unfoldable pub warrants_restart : ExitReason → Bool
warrants_restart normal = false
warrants_restart (shutdown s) = false
warrants_restart _ = true

pub data Restart : Type 0 where
  permanent transient temporary : Restart

pub data Shutdown : Type 0 where
  brutal_kill : Shutdown
  timeout : ℕ → Shutdown
  infinity : Shutdown

-- `impl Default for Shutdown`
abbrev pub default_shutdown : Shutdown
default_shutdown = timeout 5000

pub record Start : Type 0 where
  pub component : String
  pub init_args : String

pub record ChildSpec : Type 0 where
  pub id : String
  pub start : Start
  pub restart : Restart
  pub shutdown : Shutdown

-- `ChildSpec::new`
unfoldable pub child_spec : String → String → ChildSpec
child_spec id component = record {
  id = id;
  start = record { component = component; init_args = "" };
  restart = permanent;
  shutdown = default_shutdown;
}

pub data Strategy : Type 0 where
  one_for_one one_for_all rest_for_one : Strategy

pub record SupFlags : Type 0 where
  pub strategy : Strategy
  pub intensity : ℕ
  pub period_ms : ℕ

-- `impl Default for SupFlags`
abbrev pub default_flags : SupFlags
default_flags = record { strategy = one_for_one; intensity = 1; period_ms = 5000 }

pub data Action : Type 0 where
  start : ChildSpec → Action
  stop : (id : String) (shutdown : Shutdown) → Action
  give_up : Action

abbrev pub stop_child : ChildSpec → Action
stop_child c = stop c.id c.shutdown

-- A `u32` wraps round at this number; so does `as u32`.
abbrev pub u32_mod : ℕ
u32_mod = 2 ^ 32

unfoldable pub as_u32 : ℕ → ℕ
as_u32 n = n % u32_mod

-- The restart type of a child against the reason it died of.
unfoldable pub should_restart : Restart → ExitReason → Bool
unfolding warrants_restart
should_restart permanent reason = true
should_restart temporary reason = false
should_restart transient reason = warrants_restart reason

-- The queue of restart times has its oldest first: `pop_front` while the front is too old.
unfoldable pub forget_restarts_before : ℕ → List ℕ → List ℕ
forget_restarts_before cutoff [] = []
forget_restarts_before cutoff (t ∷ ts) =
    let rest = forget_restarts_before cutoff ts in if ltb t cutoff then rest else t ∷ ts
