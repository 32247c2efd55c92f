-- ===== src/Sdk/Supervisor/FanOut.antt =====
-- Whom a restart strategy of crates/plasmoid-sdk/src/supervisor.rs disturbs, and in which order.
use mathlib.Core.List.{reverse-cons, map-append}
use plasmoid.Prelude.{
  ℕ, zero, suc, ◌≡◌, refl, ap, ◌∙◌, String, Bool, true, false, not, ◌&&◌, ◌||◌, List, [], ◌∷◌, ◌++◌,
  map, reverse, arith, if◌then◌else◌, ◌==◌, nat_eq, ltb, length,
}
use plasmoid.Sdk.Spec.{
  ExitReason, ChildSpec, Strategy, one_for_one, one_for_all, rest_for_one, start, stop_child,
}
use plasmoid.Sdk.Supervisor.{
  Supervisor, is_affected, set_stopped, stop_survivors, is_temporary, restart_affected,
  restart_children, is_exceeded, restart_or_give_up, on_child_exit,
}
use plasmoid.Sdk.Supervisor.Cases.{without, IsDue, on_child_exit-due}

-- The children whose index, specification and running flag pass a test, in start order.
abbrev pub select : (ℕ → ChildSpec → Bool → Bool) → ℕ → List ChildSpec → List Bool → List ChildSpec
select p i (c ∷ cs) (r ∷ rs) =
    let rest = select p (suc i) cs rs in if p i c r then c ∷ rest else rest
select p i _ rs = []

-- Whom the strategies are to disturb: the child itself, every child, or the child and those that
-- were started after it.
abbrev pub is_disturbed : Strategy → ℕ → ℕ → Bool
is_disturbed one_for_one dead i = i == dead
is_disturbed one_for_all dead i = true
is_disturbed rest_for_one dead i = i == dead || ltb dead i

is_affected-is_disturbed :
    (st : Strategy) (idx i : ℕ) → is_affected st idx i ≡ is_disturbed st idx i
unfolding is_affected
is_affected-is_disturbed one_for_one idx i = refl
is_affected-is_disturbed one_for_all idx i = refl
is_affected-is_disturbed rest_for_one idx i = ground (arith, nat_eq.beq_iff i idx)

-- The running siblings that the strategy takes down with the child at `idx`.
abbrev pub is_survivor : Strategy → ℕ → ℕ → ChildSpec → Bool → Bool
is_survivor st idx i c r = is_disturbed st idx i && (not (i == idx) && r)

-- The children that the strategy starts again.
abbrev pub is_revived : Strategy → ℕ → ℕ → ChildSpec → Bool → Bool
is_revived st idx i c r = is_disturbed st idx i && not (is_temporary c.restart)

pub snoc-reverse :
    (c : ChildSpec) (cs : List ChildSpec)
    → map stop_child (reverse cs) ++ stop_child c ∷ [] ≡ map stop_child (reverse (c ∷ cs))
snoc-reverse c cs = rw (reverse-cons c cs, map-append)

pub stop_survivors-select :
    (st : Strategy) (idx i : ℕ) (cs : List ChildSpec) (rs : List Bool)
    → (stop_survivors st idx i cs rs).0
      ≡ map stop_child (reverse (select (is_survivor st idx) i cs rs))
unfolding stop_survivors
stop_survivors-select st idx i [] rs = refl
stop_survivors-select st idx i (c ∷ cs) [] = refl
stop_survivors-select st idx i (c ∷ cs) (r ∷ rs) = ground (
  arith,
  stop_survivors-select st idx (suc i) cs rs,
  is_affected-is_disturbed st idx i,
  snoc-reverse c (select (is_survivor st idx) (suc i) cs rs),
)

pub restart_affected-select :
    (st : Strategy) (idx i : ℕ) (cs : List ChildSpec) (rs ss : List Bool)
    → length rs ≡ length ss
    → (restart_affected st idx i cs rs).0 ≡ map start (select (is_revived st idx) i cs ss)
unfolding restart_affected
restart_affected-select st idx i [] rs ss h = refl
restart_affected-select st idx i (c ∷ cs) [] [] h = refl
restart_affected-select st idx i (c ∷ cs) [] (s ∷ ss) h = absurd (omega arith)
restart_affected-select st idx i (c ∷ cs) (r ∷ rs) [] h = absurd (omega arith)
restart_affected-select st idx i (c ∷ cs) (r ∷ rs) (s ∷ ss) h = ground (
  arith,
  restart_affected-select st idx (suc i) cs rs ss (omega arith),
  is_affected-is_disturbed st idx i,
)

pub length-stop_survivors :
    (st : Strategy) (idx i : ℕ) (cs : List ChildSpec) (rs : List Bool)
    → length (stop_survivors st idx i cs rs).1 ≡ length rs
unfolding stop_survivors
length-stop_survivors st idx i [] rs = refl
length-stop_survivors st idx i (c ∷ cs) [] = refl
length-stop_survivors st idx i (c ∷ cs) (r ∷ rs) =
    ground (arith, length-stop_survivors st idx (suc i) cs rs)

pub length-restart_affected :
    (st : Strategy) (idx i : ℕ) (cs : List ChildSpec) (rs : List Bool)
    → length (restart_affected st idx i cs rs).1 ≡ length rs
unfolding restart_affected
length-restart_affected st idx i [] rs = refl
length-restart_affected st idx i (c ∷ cs) [] = refl
length-restart_affected st idx i (c ∷ cs) (r ∷ rs) =
    ground (arith, length-restart_affected st idx (suc i) cs rs)

pub length-set_stopped : (i : ℕ) (rs : List Bool) → length (set_stopped i rs) ≡ length rs
unfolding set_stopped
length-set_stopped zero [] = refl
length-set_stopped (suc i) [] = refl
length-set_stopped zero (r ∷ rs) = refl
length-set_stopped (suc i) (r ∷ rs) = ap suc (length-set_stopped i rs)

-- A restart that the intensity allows first stops the running siblings that the strategy
-- disturbs, in reverse start order and without the dead child, and then starts every disturbed
-- child that is not temporary, in start order. One-for-one disturbs the dead child alone,
-- one-for-all every child, and rest-for-one the dead child and those that come after it.
pub on_child_exit-fan_out :
    (id : String) (reason : ExitReason) (now idx : ℕ) (c : ChildSpec) (s : Supervisor)
    → IsDue id reason idx c s
    → is_exceeded (restart_children idx now (without idx s)).1 ≡ false
    → (on_child_exit id reason now s).0
      ≡ map stop_child
          (reverse (select (is_survivor s.flags.strategy idx) 0 s.children (without idx s).running))
        ++ map start (select (is_revived s.flags.strategy idx) 0 s.children s.running)
unfolding restart_or_give_up restart_children
on_child_exit-fan_out id reason now idx c s d calm =
    let st = s.flags.strategy in
    let rs = (without idx s).running in
    rw (on_child_exit-due id reason now idx c s d, restart_or_give_up, calm, stop_survivors-select)
      (ap (λ rest. map stop_child (reverse (select (is_survivor st idx) 0 s.children rs)) ++ rest)
        (restart_affected-select st idx 0 s.children _ s.running
          (length-stop_survivors st idx 0 s.children rs ∙ length-set_stopped idx s.running)))
