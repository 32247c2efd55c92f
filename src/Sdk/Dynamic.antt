-- ===== src/Sdk/Dynamic.antt =====
-- crates/plasmoid-sdk/src/supervisor.rs: `DynamicSupervisor`, whose children come and go.
pub mod Children
pub mod Churn
mod Tests
use plasmoid.Prelude.{
  ℕ, zero, suc, ◌-◌, String, Bool, true, false, Option, none, some, List, [], ◌∷◌, ◌++◌, map, ltb,
  leb, if◌then◌else◌, ◌==◌, string_eq, position, remove_at, length, any, ◌+◌,
}
use plasmoid.Sdk.Spec.{
  ExitReason, ChildSpec, SupFlags, Action, start, give_up, stop_child, as_u32, should_restart,
  forget_restarts_before,
}

pub record DynamicSupervisor : Type 0 where
  pub intensity : ℕ
  pub period_ms : ℕ
  pub children : List ChildSpec
  pub restarts : List ℕ

-- `DynamicSupervisor::new`
unfoldable pub new : SupFlags → DynamicSupervisor
new flags = record {
  intensity = flags.intensity;
  period_ms = flags.period_ms;
  children = [];
  restarts = [];
}

unfoldable pub len : DynamicSupervisor → ℕ
len s = length s.children

unfoldable pub contains : String → DynamicSupervisor → Bool
contains id s = any (λ c. c.id == id) s.children

-- `Result<Action, StartChildError>`
pub data StartResult : Type 0 where
  started : Action → StartResult
  duplicate_id : String → StartResult

unfoldable pub start_child : ChildSpec → DynamicSupervisor → StartResult × DynamicSupervisor
unfolding contains
start_child spec s =
    if contains spec.id s
    then (duplicate_id spec.id, s)
    else (started (start spec), record s { children = s.children ++ spec ∷ [] })

-- What `self.children.remove(idx)` takes out at the index that `position` found, as a stop.
abbrev pub stop_removed :
    Option (ChildSpec × List ChildSpec) → DynamicSupervisor → Option Action × DynamicSupervisor
stop_removed none s = (none, s)
stop_removed (some (c, rest)) s = (some (stop_child c), record s { children = rest })

abbrev pub remove_found : Option ℕ → List ChildSpec → Option (ChildSpec × List ChildSpec)
remove_found none cs = none
remove_found (some idx) cs = remove_at idx cs

unfoldable pub terminate_child : String → DynamicSupervisor → Option Action × DynamicSupervisor
terminate_child id s =
    stop_removed (remove_found (position (λ c. c.id == id) s.children) s.children) s

-- `drain(..)`, in storage order.
unfoldable pub shutdown : DynamicSupervisor → List Action × DynamicSupervisor
shutdown s = (map stop_child s.children, record s { children = [] })

-- The window and the brake, once a restart is decided.
unfoldable pub restart_child : ChildSpec → ℕ → DynamicSupervisor → List Action × DynamicSupervisor
unfolding shutdown forget_restarts_before as_u32
restart_child spec now s =
    let t = record s {
      restarts = forget_restarts_before (now - s.period_ms) (s.restarts ++ now ∷ []);
    } in
    if ltb t.intensity (as_u32 (length t.restarts))
    then ((shutdown t).0 ++ give_up ∷ [], (shutdown t).1)
    else (start spec ∷ [], t)

-- `on_child_exit` from the child that was found, with what the vector is without it.
unfoldable pub on_found :
    Option (ChildSpec × List ChildSpec)
    → ExitReason
    → ℕ
    → DynamicSupervisor
    → List Action × DynamicSupervisor
unfolding restart_child should_restart
on_found none reason now s = ([], s)
on_found (some (spec, rest)) reason now s =
    if should_restart spec.restart reason
    then restart_child spec now s
    else ([], record s { children = rest })

unfoldable pub on_child_exit :
    String → ExitReason → ℕ → DynamicSupervisor → List Action × DynamicSupervisor
unfolding on_found
on_child_exit id reason now s =
    on_found (remove_found (position (λ c. c.id == id) s.children) s.children) reason now s
