-- ===== src/Sdk/Supervisor/Intensity.antt =====
-- The restart intensity of crates/plasmoid-sdk/src/supervisor.rs: the window of recent restarts,
-- and giving up.
use plasmoid.Prelude.{
  ℕ, suc, String, length, length-map, not, ◌&&◌, Bool-cases, inl, inr, ◌-◌, ◌≤◌, ◌≡◌, refl, ◌∙◌,
  Bool, true, false, List, [], ◌∷◌, ◌++◌, arith, leb, ltb, if◌then◌else◌, filter, append-nil,
}
use plasmoid.Sdk.Spec.{ExitReason, ChildSpec, Strategy, start, as_u32}
use plasmoid.Sdk.Supervisor.{
  Supervisor, is_affected, is_temporary, restart_affected, stop_survivors, restart_children,
  restart_or_give_up, give_up_now, is_exceeded, on_child_exit,
}
use plasmoid.Sdk.Supervisor.Cases.{without, IsDue, on_child_exit-due, on_child_exit-cases}
use plasmoid.Sdk.Supervisor.FanOut.{
  select, is_revived, restart_affected-select, length-stop_survivors, length-set_stopped,
}
use plasmoid.Sdk.Supervisor.Window.{
  IsAscending, replicate, push_restarts-append, IsAscending-append, forget_restarts_before-filter,
  IsAscending-forget,
}

-- The number of restarts is counted in a `u32`.
restart_affected-count :
    (st : Strategy) (idx i : ℕ) (cs : List ChildSpec) (rs : List Bool)
    → (restart_affected st idx i cs rs).2 ≡ as_u32 (length (restart_affected st idx i cs rs).0)
unfolding restart_affected as_u32
restart_affected-count st idx i [] rs = refl
restart_affected-count st idx i (c ∷ cs) [] = refl
restart_affected-count st idx i (c ∷ cs) (r ∷ rs) =
    let later = restart_affected-count st idx (suc i) cs rs in
    elim (Bool-cases (is_affected st idx i && not (is_temporary c.restart))) [
      | inl again ↦ rw again (omega (arith, later))
      | inr left ↦ rw left later
    ]

-- The restarts within the period up to `now`, those that the strategy makes for the child at
-- `idx` included.
abbrev pub recent : ℕ → ℕ → Supervisor → List ℕ
recent idx now s =
    filter (λ t. leb (now - s.flags.period_ms) t)
      (s.restarts
        ++ replicate
            (as_u32 (length (select (is_revived s.flags.strategy idx) 0 s.children s.running))) now)

module _ (idx now hi : ℕ) (s : Supervisor) where
  restart_children-recent :
      IsAscending 0 hi s.restarts
      → hi ≤ now
      → (restart_children idx now (without idx s)).1.restarts ≡ recent idx now s
  unfolding restart_children
  restart_children-recent asc h =
      let st = s.flags.strategy in
      let rs = (without idx s).running in
      let ss = (stop_survivors st idx 0 s.children rs).1 in
      rw
        (
          restart_affected-count st idx 0 s.children ss,
          restart_affected-select st idx 0 s.children ss s.running
              (length-stop_survivors st idx 0 s.children rs ∙ length-set_stopped idx s.running),
          length-map start (select (is_revived st idx) 0 s.children s.running),
          push_restarts-append,
        )
        (forget_restarts_before-filter _ 0 now _ (IsAscending-append 0 hi now _ s.restarts h asc))

  restart_children-IsAscending :
      IsAscending 0 hi s.restarts
      → hi ≤ now
      → IsAscending 0 now (restart_children idx now (without idx s)).1.restarts
  unfolding restart_children
  restart_children-IsAscending asc h =
      rw push_restarts-append
        (IsAscending-forget _ 0 now _ (IsAscending-append 0 hi now _ s.restarts h asc))

restart_or_give_up-recent :
    (idx now : ℕ) (s : Supervisor) (ts : List ℕ)
    → (restart_children idx now s).1.restarts ≡ ts
    → ((restart_or_give_up idx now s).1.restarts ≡ ts)
      × (restart_or_give_up idx now s ≡ (
          if ltb s.flags.intensity (as_u32 (length ts))
          then give_up_now (restart_children idx now s).1
          else restart_children idx now s))
unfolding restart_or_give_up
restart_or_give_up-recent idx now s ts e =
    rw (← e) (both (is_exceeded (restart_children idx now s).1) refl)
  where
    both :
        (b : Bool)
        → is_exceeded (restart_children idx now s).1 ≡ b
        → ((restart_or_give_up idx now s).1.restarts ≡ (restart_children idx now s).1.restarts)
          × (restart_or_give_up idx now s ≡ (
              if is_exceeded (restart_children idx now s).1
              then give_up_now (restart_children idx now s).1
              else restart_children idx now s))
    both true x = (rw (x, restart_or_give_up), refl)
    both false x = (rw (x, restart_or_give_up), refl)

-- The brake: if the clock does not go back, then a child that is due for a restart makes the
-- supervisor give up exactly if the restarts within the last period, those of this exit included,
-- are more than the intensity; otherwise those restarts are what it remembers.
pub on_child_exit-intensity :
    (id : String) (reason : ExitReason) (now hi idx : ℕ) (c : ChildSpec) (s : Supervisor)
    → IsDue id reason idx c s
    → IsAscending 0 hi s.restarts
    → hi ≤ now
    → ((on_child_exit id reason now s).1.restarts ≡ recent idx now s)
      × (on_child_exit id reason now s ≡ (
          if ltb s.flags.intensity (as_u32 (length (recent idx now s)))
          then give_up_now (restart_children idx now (without idx s)).1
          else restart_children idx now (without idx s)))
on_child_exit-intensity id reason now hi idx c s due asc h =
    rw (on_child_exit-due id reason now idx c s due) (
      restart_or_give_up-recent idx now (without idx s) (recent idx now s)
        (restart_children-recent idx now hi s asc h))

-- If the clock does not go back, then the remembered restarts stay in order, and none is later
-- than the exit.
pub on_child_exit-IsAscending :
    (id : String) (reason : ExitReason) (now hi : ℕ) (s : Supervisor)
    → IsAscending 0 hi s.restarts
    → hi ≤ now
    → IsAscending 0 now (on_child_exit id reason now s).1.restarts
on_child_exit-IsAscending id reason now hi s asc h =
    on_child_exit-cases id reason now (λ r. IsAscending 0 now r.1.restarts) s later (λ idx. later)
      λ idx c due.
        rw (restart_or_give_up-recent idx now (without idx s) _ refl).0
          (restart_children-IsAscending idx now hi s asc h)
  where
    later : IsAscending 0 now s.restarts
    later = rw append-nil at (IsAscending-append 0 hi now 0 s.restarts h asc)
