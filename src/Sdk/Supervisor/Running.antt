-- ===== src/Sdk/Supervisor/Running.antt =====
-- Which children crates/plasmoid-sdk/src/supervisor.rs believes to be running.
use plasmoid.Prelude.{
  ℕ, zero, suc, ◌+◌, ◌&&◌, ◌≡◌, refl, ◌∙◌, String, Bool, true, false, not, some, List, [], ◌∷◌,
  length-map, arith, if◌then◌else◌, ◌==◌, nat_eq, length,
}
use plasmoid.Sdk.Spec.{ExitReason, ChildSpec, Strategy}
use plasmoid.Sdk.Supervisor.{
  Supervisor, shutdown, running_at, is_affected, set_stopped, stop_survivors, is_temporary,
  restart_affected, restart_children, give_up_now, restart_or_give_up, child_at, on_child_exit,
  is_exceeded,
}
use plasmoid.Sdk.Supervisor.FanOut.{
  length-stop_survivors, length-restart_affected, length-set_stopped,
}
use plasmoid.Sdk.Supervisor.Cases.{without, IsDue, on_child_exit-due, on_child_exit-cases}

-- The vectors `children` and `running` are parallel.
abbrev pub IsParallel : Supervisor → Type 0
IsParallel s = length s.running ≡ length s.children

-- An operation keeps the specifications and flags, and the vectors parallel.
pub record Keeps (s t : Supervisor) : Type 0 where
  pub children : t.children ≡ s.children
  pub flags : t.flags ≡ s.flags
  pub parallel : IsParallel s → IsParallel t

shutdown-Keeps : (s : Supervisor) → Keeps s (shutdown s).1
unfolding shutdown
shutdown-Keeps s = record {
  children = refl;
  flags = refl;
  parallel = λ h. length-map _ s.running ∙ h;
}

pub restart_children-Keeps : (idx now : ℕ) (s : Supervisor) → Keeps s (restart_children idx now s).1
unfolding restart_children
restart_children-Keeps idx now s = record {
  children = refl;
  flags = refl;
  parallel = λ h.
      length-restart_affected s.flags.strategy idx 0 s.children _
      ∙ (length-stop_survivors s.flags.strategy idx 0 s.children s.running ∙ h);
}

restart_or_give_up-Keeps : (idx now : ℕ) (s : Supervisor) → Keeps s (restart_or_give_up idx now s).1
unfolding restart_or_give_up give_up_now
restart_or_give_up-Keeps idx now s =
    let a = restart_children-Keeps idx now s in
    let b = shutdown-Keeps (restart_children idx now s).1 in
    ground (arith, a.children, a.flags, b.children, b.flags, a.parallel, b.parallel)

-- Every exit, whatever it leads to, keeps the specifications and the flags, and the vectors
-- parallel.
pub on_child_exit-Keeps :
    (id : String) (reason : ExitReason) (now : ℕ) (s : Supervisor)
    → Keeps s (on_child_exit id reason now s).1
on_child_exit-Keeps id reason now s =
    on_child_exit-cases id reason now (λ r. Keeps s r.1) s
      (record { children = refl; flags = refl; parallel = λ h. h }) (λ idx. stopped idx)
      λ idx c d.
        let k = restart_or_give_up-Keeps idx now (without idx s) in
        record {
          children = k.children;
          flags = k.flags;
          parallel = λ h. k.parallel ((stopped idx).parallel h);
        }
  where
    stopped : (idx : ℕ) → Keeps s (without idx s)
    stopped idx = record {
      children = refl;
      flags = refl;
      parallel = λ h. length-set_stopped idx s.running ∙ h;
    }

running_at-set_stopped :
    (idx j : ℕ) (rs : List Bool)
    → running_at (set_stopped idx rs) j ≡ (if j == idx then false else running_at rs j)
unfolding set_stopped
running_at-set_stopped zero zero [] = refl
running_at-set_stopped zero (suc j) [] = ground arith
running_at-set_stopped (suc idx) j [] = ground arith
running_at-set_stopped zero zero (r ∷ rs) = refl
running_at-set_stopped zero (suc j) (r ∷ rs) = ground arith
running_at-set_stopped (suc idx) zero (r ∷ rs) = ground arith
running_at-set_stopped (suc idx) (suc j) (r ∷ rs) = ground (arith, running_at-set_stopped idx j rs)

module _ (st : Strategy) (idx : ℕ) where
  running_at-stop_survivors :
      (i j k : ℕ) (cs : List ChildSpec) (rs : List Bool)
      → k ≡ i + j
      → length rs ≡ length cs
      → running_at (stop_survivors st idx i cs rs).1 j
        ≡ (if is_affected st idx k && not (k == idx) then false else running_at rs j)
  unfolding stop_survivors
  running_at-stop_survivors i j k [] [] e h = ground arith
  running_at-stop_survivors i j k [] (r ∷ rs) e h = absurd (omega arith)
  running_at-stop_survivors i j k (c ∷ cs) [] e h = absurd (omega arith)
  running_at-stop_survivors i zero k (c ∷ cs) (r ∷ rs) e h =
      let same : k ≡ i = omega arith in rw same (ground arith)
  running_at-stop_survivors i (suc j) k (c ∷ cs) (r ∷ rs) e h =
      ground (arith, running_at-stop_survivors (suc i) j k cs rs (omega arith) (omega arith))

  running_at-restart_affected :
      (i j k : ℕ) (cs : List ChildSpec) (rs : List Bool) (c : ChildSpec)
      → k ≡ i + j
      → length rs ≡ length cs
      → child_at cs j ≡ some c
      → running_at (restart_affected st idx i cs rs).1 j
        ≡ (if is_affected st idx k && not (is_temporary c.restart) then true else running_at rs j)
  unfolding restart_affected
  running_at-restart_affected i j k [] rs c e h at = absurd (cc)
  running_at-restart_affected i j k (d ∷ cs) [] c e h at = absurd (omega arith)
  running_at-restart_affected i zero k (d ∷ cs) (r ∷ rs) c e h at =
      let same : k ≡ i = omega arith in rw same (ground arith)
  running_at-restart_affected i (suc j) k (d ∷ cs) (r ∷ rs) c e h at =
      ground (arith, running_at-restart_affected (suc i) j k cs rs c (omega arith) (omega arith) at)

is_affected_self : (st : Strategy) (idx : ℕ) → is_affected st idx idx ≡ true
unfolding is_affected
is_affected_self Strategy.one_for_one idx = ground arith
is_affected_self Strategy.one_for_all idx = refl
is_affected_self Strategy.rest_for_one idx = ground arith

-- After the two loops a disturbed child runs exactly if it is not temporary, and all others are
-- as they were.
pub running_at-restart_children :
    (idx now j : ℕ) (c : ChildSpec) (s : Supervisor)
    → IsParallel s
    → child_at s.children j ≡ some c
    → running_at (restart_children idx now (without idx s)).1.running j ≡ (
        if is_affected s.flags.strategy idx j
        then not (is_temporary c.restart)
        else running_at s.running j)
unfolding restart_children
running_at-restart_children idx now j c s h at =
    let st = s.flags.strategy in
    let rs = set_stopped idx s.running in
    let same : length rs ≡ length s.children = length-set_stopped idx s.running ∙ h in
    ground (
      arith,
      running_at-restart_affected st idx 0 j j s.children (stop_survivors st idx 0 s.children rs).1
          c (omega arith) (length-stop_survivors st idx 0 s.children rs ∙ same) at,
      running_at-stop_survivors st idx 0 j j s.children rs (omega arith) same,
      running_at-set_stopped idx j s.running,
      is_affected_self st idx,
    )

-- A restart that the intensity allows leaves every child that the strategy does not disturb as it
-- was, and of the disturbed ones exactly those running that are not temporary.
pub on_child_exit-running :
    (id : String) (reason : ExitReason) (now idx j : ℕ) (c d : ChildSpec) (s : Supervisor)
    → IsParallel s
    → IsDue id reason idx c s
    → is_exceeded (restart_children idx now (without idx s)).1 ≡ false
    → child_at s.children j ≡ some d
    → running_at (on_child_exit id reason now s).1.running j ≡ (
        if is_affected s.flags.strategy idx j
        then not (is_temporary d.restart)
        else running_at s.running j)
unfolding restart_or_give_up
on_child_exit-running id reason now idx j c d s h due calm at =
    rw (on_child_exit-due id reason now idx c s due, restart_or_give_up, calm)
      (running_at-restart_children idx now j d s h at)
