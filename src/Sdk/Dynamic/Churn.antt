-- ===== src/Sdk/Dynamic/Churn.antt =====
-- The restart intensity of a dynamic supervisor in crates/plasmoid-sdk/src/supervisor.rs.
use plasmoid.Prelude.{
  ℕ, ◌-◌, ◌≤◌, ◌≡◌, refl, subst, String, true, false, List, [], ◌∷◌, ◌++◌, map, arith,
  if◌then◌else◌, ◌==◌, string_eq, All, All-append, position, Bool-cases, inl, inr, leb, ltb, filter,
  length, some,
}
use plasmoid.Sdk.Spec.{
  ExitReason, ChildSpec, SupFlags, Action, start, stop_child, give_up, should_restart, temporary,
  as_u32,
}
use plasmoid.Sdk.Supervisor.Window.{IsAscending, IsAscending-append, forget_restarts_before-filter}
use plasmoid.Sdk.Dynamic.{
  DynamicSupervisor, new, start_child, terminate_child, stop_removed, remove_found, shutdown,
  restart_child, on_found, on_child_exit, contains,
}
use plasmoid.Sdk.Dynamic.Children.{
  Event, starts, terminates, exits, shuts_down, step, remove_found-cases,
}

abbrev pub AllTemporary : List ChildSpec → Type 0
AllTemporary = All (λ c. c.restart ≡ temporary)

All-drop :
    (pre post : List ChildSpec) (c : ChildSpec)
    → AllTemporary (pre ++ c ∷ post)
    → (c.restart ≡ temporary) × AllTemporary (pre ++ post)
All-drop [] post c h = h
All-drop (d ∷ pre) post c h = let (t, rest) = All-drop pre post c h.1 in (t, (h.0, rest))

-- The exit of a temporary child asks for nothing and touches no restart time.
on_child_exit-temporary :
    (id : String) (reason : ExitReason) (now : ℕ) (s : DynamicSupervisor)
    → AllTemporary s.children
    → ((on_child_exit id reason now s).0 ≡ [])
      × AllTemporary (on_child_exit id reason now s).1.children
unfolding on_child_exit on_found
on_child_exit-temporary id reason now s h =
    remove_found-cases
      (λ o. ((on_found o reason now s).0 ≡ []) × AllTemporary (on_found o reason now s).1.children)
      id s.children (λ _. (refl, h))
      λ pre post c whole _ _.
        let (t, rest) = All-drop pre post c (subst AllTemporary whole h) in
        rw (t, on_found) (refl, rest)

-- Every child that is started is temporary.
abbrev pub StartsTemporary : List Event → Type 0
StartsTemporary [] = Unit
StartsTemporary (starts c ∷ es) = (c.restart ≡ temporary) × StartsTemporary es
StartsTemporary (_ ∷ es) = StartsTemporary es

-- All that the exits among the events ask for.
abbrev pub asked : List Event → DynamicSupervisor → List Action
asked [] s = []
asked (exits id reason now ∷ es) s =
    (on_child_exit id reason now s).0 ++ asked es (step (exits id reason now) s)
asked (starts c ∷ es) s = asked es (step (starts c) s)
asked (terminates id ∷ es) s = asked es (step (terminates id) s)
asked (shuts_down ∷ es) s = asked es (step shuts_down s)

start_child-temporary :
    (c : ChildSpec) (s : DynamicSupervisor)
    → c.restart ≡ temporary
    → AllTemporary s.children
    → AllTemporary (start_child c s).1.children
unfolding start_child
start_child-temporary c s t h = elim (Bool-cases (contains c.id s)) [
  | inl there ↦ rw (there, start_child) h
  | inr fresh ↦ rw (fresh, start_child) (All-append _ s.children (c ∷ []) h (t, tt))
]

terminate_child-temporary :
    (id : String) (s : DynamicSupervisor)
    → AllTemporary s.children
    → AllTemporary (terminate_child id s).1.children
unfolding terminate_child
terminate_child-temporary id s h =
    remove_found-cases (λ o. AllTemporary (stop_removed o s).1.children) id s.children (λ _. h)
      λ pre post c whole _ _. (All-drop pre post c (subst AllTemporary whole h)).1

asked-temporary :
    (es : List Event) (s : DynamicSupervisor)
    → StartsTemporary es
    → AllTemporary s.children
    → asked es s ≡ []
unfolding shutdown
asked-temporary [] s t h = refl
asked-temporary (exits id reason now ∷ es) s t h =
    let (none_now, left) = on_child_exit-temporary id reason now s h in
    rw none_now (asked-temporary es (on_child_exit id reason now s).1 t left)
asked-temporary (starts c ∷ es) s t h =
    asked-temporary es (start_child c s).1 t.1 (start_child-temporary c s t.0 h)
asked-temporary (terminates id ∷ es) s t h =
    asked-temporary es (terminate_child id s).1 t (terminate_child-temporary id s h)
asked-temporary (shuts_down ∷ es) s t h = asked-temporary es (shutdown s).1 t tt

-- A pool of temporary children churns freely: whatever starts, ends and is stopped, at any
-- intensity, no exit ever restarts a child or makes the supervisor give up.
pub churn_is_free :
    (flags : SupFlags) (es : List Event) → StartsTemporary es → asked es (new flags) ≡ []
unfolding new
churn_is_free flags es t = asked-temporary es (new flags) t tt

-- The restarts within the period up to `now`, this one included.
abbrev pub recent : ℕ → DynamicSupervisor → List ℕ
recent now s = filter (λ t. leb (now - s.period_ms) t) (s.restarts ++ now ∷ [])

restart_child-recent :
    (c : ChildSpec) (now hi : ℕ) (s : DynamicSupervisor)
    → IsAscending 0 hi s.restarts
    → hi ≤ now
    → restart_child c now s ≡ (
        if ltb s.intensity (as_u32 (length (recent now s)))
        then (
          map stop_child s.children ++ give_up ∷ [],
          record s { children = []; restarts = recent now s },
        )
        else (start c ∷ [], record s { restarts = recent now s }))
unfolding restart_child
restart_child-recent c now hi s asc h = rw (
    forget_restarts_before-filter (now - s.period_ms) 0 now (s.restarts ++ now ∷ [])
      (IsAscending-append 0 hi now 1 s.restarts h asc))

remove_found-split :
    (id : String) (pre post : List ChildSpec) (c : ChildSpec)
    → All (λ d. (d.id == id) ≡ false) pre
    → (c.id == id) ≡ true
    → remove_found (position (λ d. d.id == id) (pre ++ c ∷ post)) (pre ++ c ∷ post)
      ≡ some (c, pre ++ post)
remove_found-split id [] post c h same = rw same
remove_found-split id (d ∷ pre) post c h same =
    ground (arith, h.0, remove_found-split id pre post c h.1 same)

-- The brake: if the clock does not go back, the first child with the id of the exit, if it is due
-- for a restart, is restarted alone, unless the restarts within the last period, this one
-- included, are more than the intensity: then every child is asked to stop, the supervisor gives
-- up, and it holds no child any more.
pub on_child_exit-brake :
    (id : String) (reason : ExitReason) (now hi : ℕ) (pre post : List ChildSpec) (c : ChildSpec)
    (s : DynamicSupervisor)
    → s.children ≡ pre ++ c ∷ post
    → All (λ d. (d.id == id) ≡ false) pre
    → (c.id == id) ≡ true
    → should_restart c.restart reason ≡ true
    → IsAscending 0 hi s.restarts
    → hi ≤ now
    → on_child_exit id reason now s ≡ (
        if ltb s.intensity (as_u32 (length (recent now s)))
        then (
          map stop_child s.children ++ give_up ∷ [],
          record s { children = []; restarts = recent now s },
        )
        else (start c ∷ [], record s { restarts = recent now s }))
unfolding on_child_exit on_found
on_child_exit-brake id reason now hi pre post c s whole before same due asc h =
    let taken : remove_found (position (λ d. d.id == id) s.children) s.children
        ≡ some (c, pre ++ post) =
      rw whole (remove_found-split id pre post c before same) in
    rw (taken, on_found, due) (restart_child-recent c now hi s asc h)
