-- ===== src/Sdk/Supervisor.antt =====
-- crates/plasmoid-sdk/src/supervisor.rs: `Supervisor`, the policy for children in a start order.
-- The vectors `children` and `running` are parallel, so a loop over their indices is a recursion
-- on both lists that carries the index.
pub mod Cases
pub mod Intensity
pub mod FanOut
pub mod Window
pub mod GiveUp
pub mod Running
mod Tests
use plasmoid.Prelude.{
  ℕ, suc, ◌+◌, ◌-◌, String, Bool, true, false, not, ◌&&◌, Option, none, some, List, [], ◌∷◌, ◌++◌,
  map, leb, ltb, if◌then◌else◌, ◌==◌, nat_eq, string_eq, position, length,
}
use plasmoid.Sdk.Spec.{
  ExitReason, Restart, temporary, ChildSpec, Strategy, one_for_one, one_for_all, rest_for_one,
  SupFlags, Action, start, give_up, stop_child, as_u32, should_restart, forget_restarts_before,
}

pub record Supervisor : Type 0 where
  pub flags : SupFlags
  pub children : List ChildSpec
  pub running : List Bool
  pub restarts : List ℕ

-- `Supervisor::new`
unfoldable pub new : SupFlags → List ChildSpec → Supervisor
new flags children = record {
  flags = flags;
  children = children;
  running = map (λ _. false) children;
  restarts = [];
}

unfoldable pub index_of : String → List ChildSpec → Option ℕ
index_of id children = position (λ c. c.id == id) children

abbrev pub running_at : List Bool → ℕ → Bool
running_at [] i = false
running_at (r ∷ rs) ℕ.zero = r
running_at (r ∷ rs) (suc i) = running_at rs i

unfoldable pub is_running : Supervisor → String → Bool
unfolding index_of
is_running s id = elim (index_of id s.children) [ none ↦ false | some i ↦ running_at s.running i ]

-- Start every child, left to right.
unfoldable pub init : Supervisor → List Action × Supervisor
init s = (map start s.children, record s { running = map (λ _. true) s.children })

-- The reversed loop of `shutdown`: the action of an earlier child comes later.
unfoldable pub stop_running : List ChildSpec → List Bool → List Action
stop_running (c ∷ cs) (r ∷ rs) = stop_running cs rs ++ (if r then stop_child c ∷ [] else [])
stop_running _ _ = []

unfoldable pub shutdown : Supervisor → List Action × Supervisor
unfolding stop_running
shutdown s = (stop_running s.children s.running, record s { running = map (λ _. false) s.running })

unfoldable pub give_up_now : Supervisor → List Action × Supervisor
unfolding shutdown
give_up_now s = ((shutdown s).0 ++ give_up ∷ [], (shutdown s).1)

-- Whether index `i` is in the list `affected` of a strategy, when the child at `idx` died.
unfoldable pub is_affected : Strategy → ℕ → ℕ → Bool
is_affected one_for_one idx i = i == idx
is_affected one_for_all idx i = true
is_affected rest_for_one idx i = leb idx i

-- `self.running[idx] = false`
unfoldable pub set_stopped : ℕ → List Bool → List Bool
set_stopped i [] = []
set_stopped ℕ.zero (r ∷ rs) = false ∷ rs
set_stopped (suc i) (r ∷ rs) = r ∷ set_stopped i rs

-- Stop the survivors, reverse order, skipping the one already gone.
unfoldable pub stop_survivors :
    Strategy → ℕ → ℕ → List ChildSpec → List Bool → List Action × List Bool
unfolding is_affected
stop_survivors st idx i (c ∷ cs) (r ∷ rs) =
    let later = stop_survivors st idx (suc i) cs rs in
    if is_affected st idx i && (not (i == idx) && r)
    then (later.0 ++ stop_child c ∷ [], false ∷ later.1)
    else (later.0, r ∷ later.1)
stop_survivors st idx i _ rs = ([], rs)

abbrev pub is_temporary : Restart → Bool
is_temporary temporary = true
is_temporary _ = false

-- Restart forwards; the number counts the restarts, in a `u32`.
unfoldable pub restart_affected :
    Strategy → ℕ → ℕ → List ChildSpec → List Bool → List Action × List Bool × ℕ
unfolding is_affected as_u32
restart_affected st idx i (c ∷ cs) (r ∷ rs) =
    let later = restart_affected st idx (suc i) cs rs in
    if is_affected st idx i && not (is_temporary c.restart)
    then (start c ∷ later.0, true ∷ later.1, as_u32 (later.2 + 1))
    else (later.0, r ∷ later.1, later.2)
restart_affected st idx i _ rs = ([], rs, 0)

-- `for _ in 0..restarted { self.restarts.push_back(now_ms) }`
unfoldable pub push_restarts : ℕ → ℕ → List ℕ → List ℕ
push_restarts ℕ.zero now ts = ts
push_restarts (suc n) now ts = push_restarts n now (ts ++ now ∷ [])

-- The state after both loops and the window, with the actions so far.
unfoldable pub restart_children : ℕ → ℕ → Supervisor → List Action × Supervisor
unfolding stop_survivors restart_affected push_restarts forget_restarts_before
restart_children idx now s =
    let stopped = stop_survivors s.flags.strategy idx 0 s.children s.running in
    let started = restart_affected s.flags.strategy idx 0 s.children stopped.1 in
    (
      stopped.0 ++ started.0,
      record s {
        running = started.1;
        restarts =
            forget_restarts_before (now - s.flags.period_ms)
              (push_restarts started.2 now s.restarts);
      },
    )

-- The restart intensity is exceeded.
unfoldable pub is_exceeded : Supervisor → Bool
unfolding as_u32
is_exceeded s = ltb s.flags.intensity (as_u32 (length s.restarts))

unfoldable pub restart_or_give_up : ℕ → ℕ → Supervisor → List Action × Supervisor
unfolding restart_children give_up_now is_exceeded
restart_or_give_up idx now s =
    let done = restart_children idx now s in if is_exceeded done.1 then give_up_now done.1 else done

abbrev pub child_at : List ChildSpec → ℕ → Option ChildSpec
child_at [] i = none
child_at (c ∷ cs) ℕ.zero = some c
child_at (c ∷ cs) (suc i) = child_at cs i

-- The tail of `on_child_exit`, from the index that was found.
unfoldable pub on_found : Option ℕ → ExitReason → ℕ → Supervisor → List Action × Supervisor
unfolding set_stopped should_restart restart_or_give_up
on_found none reason now s = ([], s)
on_found (some idx) reason now s =
    let dead = record s { running = set_stopped idx s.running } in
    elim (child_at s.children idx) [
      | none ↦ ([], dead)
      | some c ↦
          if should_restart c.restart reason then restart_or_give_up idx now dead else ([], dead)
    ]

unfoldable pub on_child_exit : String → ExitReason → ℕ → Supervisor → List Action × Supervisor
unfolding on_found index_of
on_child_exit id reason now s = on_found (index_of id s.children) reason now s
