-- ===== src/Sdk/Supervisor/GiveUp.antt =====
-- Stopping everything in crates/plasmoid-sdk/src/supervisor.rs: `shutdown`, and giving up.
use plasmoid.Prelude.{
  ℕ, zero, suc, ◌≡◌, refl, ap, String, Bool, true, false, some, List, [], ◌∷◌, ◌++◌, map, reverse,
  arith, All, All-append, All-map, All-reverse, ◌⊎◌, inl, inr, append-nil,
}
use plasmoid.Sdk.Spec.{ExitReason, ChildSpec, Action, give_up, stop_child, one_for_all}
use plasmoid.Sdk.Supervisor.{
  Supervisor, running_at, shutdown, stop_running, give_up_now, is_exceeded, restart_children,
  restart_or_give_up, on_child_exit, child_at, is_temporary, is_affected,
}
use plasmoid.Sdk.Supervisor.Cases.{without, IsDue, on_child_exit-due}
use plasmoid.Sdk.Supervisor.FanOut.{select, snoc-reverse}
use plasmoid.Sdk.Supervisor.Running.{IsParallel, running_at-restart_children}

abbrev pub is_on : ℕ → ChildSpec → Bool → Bool
is_on i c r = r

stop_running-select :
    (i : ℕ) (cs : List ChildSpec) (rs : List Bool)
    → stop_running cs rs ≡ map stop_child (reverse (select is_on i cs rs))
unfolding stop_running
stop_running-select i [] rs = refl
stop_running-select i (c ∷ cs) [] = refl
stop_running-select i (c ∷ cs) (true ∷ rs) =
    rw (stop_running-select (suc i) cs rs) (snoc-reverse c (select is_on (suc i) cs rs))
stop_running-select i (c ∷ cs) (false ∷ rs) = rw append-nil (stop_running-select (suc i) cs rs)

stop_running-none :
    (A : Type 0) (cs : List ChildSpec) (xs : List A) → stop_running cs (map (λ _. false) xs) ≡ []
unfolding stop_running
stop_running-none A [] xs = refl
stop_running-none A (c ∷ cs) [] = refl
stop_running-none A (c ∷ cs) (x ∷ xs) = rw append-nil (stop_running-none A cs xs)

running_at-map-false :
    (A : Type 0) (xs : List A) (j : ℕ) → running_at (map (λ _. false) xs) j ≡ false
running_at-map-false A [] j = refl
running_at-map-false A (x ∷ xs) zero = refl
running_at-map-false A (x ∷ xs) (suc j) = running_at-map-false A xs j

-- `shutdown` stops exactly the running children, in reverse start order; after it none is
-- running, and a second `shutdown` asks for nothing.
pub shutdown_lem :
    (s : Supervisor)
    → ((shutdown s).0 ≡ map stop_child (reverse (select is_on 0 s.children s.running)))
      × ((j : ℕ) → running_at (shutdown s).1.running j ≡ false)
      × ((shutdown (shutdown s).1).0 ≡ [])
unfolding shutdown
shutdown_lem s = (
  stop_running-select 0 s.children s.running,
  running_at-map-false Bool s.running,
  stop_running-none Bool s.children s.running,
)

one_for_all-affects : (idx j : ℕ) → is_affected one_for_all idx j ≡ true
unfolding is_affected
one_for_all-affects idx j = refl

module _ (id : String) (reason : ExitReason) (now idx : ℕ) (c : ChildSpec) (s : Supervisor)
    (due : IsDue id reason idx c s)
    (over : is_exceeded (restart_children idx now (without idx s)).1 ≡ true) where
  on_child_exit-over :
      on_child_exit id reason now s ≡ give_up_now (restart_children idx now (without idx s)).1
  unfolding restart_or_give_up
  on_child_exit-over = rw (on_child_exit-due id reason now idx c s due, restart_or_give_up, over)

  -- When the intensity is exceeded, the supervisor asks to stop, in reverse start order, the
  -- children that it takes for running after the restart, and then gives up; nothing is started,
  -- and it takes nothing for running any more.
  pub on_child_exit-gives_up :
      ((on_child_exit id reason now s).0
        ≡ map stop_child (
            reverse
              (select is_on 0 s.children (restart_children idx now (without idx s)).1.running))
          ++ give_up ∷ [])
      × ((j : ℕ) → running_at (on_child_exit id reason now s).1.running j ≡ false)
  unfolding give_up_now restart_children
  on_child_exit-gives_up =
      let r = (restart_children idx now (without idx s)).1 in
      rw on_child_exit-over (
        ap (λ stops. stops ++ give_up ∷ []) (stop_running-select 0 r.children r.running),
        running_at-map-false Bool r.running,
      )

-- An action that gives up, or that stops a child which is not temporary.
abbrev pub SparesTemporary : Action → Type 0
SparesTemporary a =
    (a ≡ give_up) ⊎ ((d : ChildSpec) × (a ≡ stop_child d) × (is_temporary d.restart ≡ false))

select-All :
    (P : ChildSpec → Type 0) (i : ℕ) (cs : List ChildSpec) (rs : List Bool)
    → ((j : ℕ) (d : ChildSpec) → child_at cs j ≡ some d → running_at rs j ≡ true → P d)
    → All P (select is_on i cs rs)
select-All P i [] rs h = tt
select-All P i (c ∷ cs) [] h = tt
select-All P i (c ∷ cs) (true ∷ rs) h =
    (h 0 c refl refl, select-All P (suc i) cs rs (λ j. h (suc j)))
select-All P i (c ∷ cs) (false ∷ rs) h = select-All P (suc i) cs rs (λ j. h (suc j))

-- Under one-for-all, giving up stops no temporary child, running or not: every action is to give
-- up, or stops a child that is not temporary.
pub on_child_exit-SparesTemporary :
    (id : String) (reason : ExitReason) (now idx : ℕ) (c : ChildSpec) (s : Supervisor)
    → IsDue id reason idx c s
    → is_exceeded (restart_children idx now (without idx s)).1 ≡ true
    → s.flags.strategy ≡ one_for_all
    → IsParallel s
    → All SparesTemporary (on_child_exit id reason now s).0
on_child_exit-SparesTemporary id reason now idx c s due over all parallel =
    let r = (restart_children idx now (without idx s)).1 in
    let alive = select is_on 0 s.children r.running in
    rw (on_child_exit-gives_up id reason now idx c s due over).0 (
      All-append SparesTemporary (map stop_child (reverse alive)) (give_up ∷ [])
        (All-map SparesTemporary stop_child (reverse alive) (
          All-reverse (λ d. SparesTemporary (stop_child d)) alive
            (select-All _ 0 s.children r.running λ j d at on. inr (d, refl, revived j d at on))))
        (inl refl, tt))
  where
    revived :
        (j : ℕ) (d : ChildSpec)
        → child_at s.children j ≡ some d
        → running_at (restart_children idx now (without idx s)).1.running j ≡ true
        → is_temporary d.restart ≡ false
    revived j d at on = ground (
      arith,
      running_at-restart_children idx now j d s parallel at,
      all,
      on,
      one_for_all-affects idx j,
    )
