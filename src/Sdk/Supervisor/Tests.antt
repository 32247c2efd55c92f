-- ===== src/Sdk/Supervisor/Tests.antt =====
-- Runs of the policy in crates/plasmoid-sdk/src/supervisor.rs, after the tests at its end.
use plasmoid.Prelude.{
  ℕ, ◌≡◌, refl, String, true, false, [], ◌∷◌, ◌++◌, map, reverse, length, arith, ltb, if◌then◌else◌,
  All,
}
use plasmoid.Sdk.Spec.{
  ChildSpec, child_spec, permanent, temporary, Restart, one_for_all, rest_for_one, exception,
  stop_child, start, give_up, as_u32, ExitReason, Strategy, should_restart,
}
use plasmoid.Sdk.Supervisor.{
  Supervisor, set_stopped, new, init, on_child_exit, restart_children, is_exceeded, running_at,
  give_up_now, index_of,
}
use plasmoid.Sdk.Supervisor.Cases.{without, IsDue}
use plasmoid.Sdk.Supervisor.FanOut.{select, is_survivor, is_revived, on_child_exit-fan_out}
use plasmoid.Sdk.Supervisor.Intensity.{recent, on_child_exit-intensity}
use plasmoid.Sdk.Supervisor.GiveUp.{
  is_on, SparesTemporary, on_child_exit-gives_up, on_child_exit-SparesTemporary,
}

abbrev child : String → Restart → ChildSpec
unfolding child_spec
child id restart = record (child_spec id "worker") { restart = restart }

-- Three children, of which the last is temporary, with room for restarts or for none.
abbrev three : ℕ → Strategy → Supervisor
unfolding new init child
three intensity st =
    (init (
      new (record { strategy = st; intensity = intensity; period_ms = 1000 })
        (child "a" permanent ∷ child "b" permanent ∷ child "c" temporary ∷ []))).1

abbrev crash : ExitReason
crash = exception "crash"

IsDue-a : (n : ℕ) (st : Strategy) → IsDue "a" crash 0 (child "a" permanent) (three n st)
unfolding three index_of should_restart child
IsDue-a n st = record { found = refl; spec = refl; due = refl }

calm : is_exceeded (restart_children 0 10 (without 0 (three 5 rest_for_one))).1 ≡ false
unfolding is_exceeded restart_children three set_stopped child
calm = refl

over : is_exceeded (restart_children 0 10 (without 0 (three 0 one_for_all))).1 ≡ true
unfolding is_exceeded restart_children three set_stopped child
over = refl

on_child_exit-fan_out_example :
    (on_child_exit "a" crash 10 (three 5 rest_for_one)).0
    ≡ map stop_child (
        reverse (
          select
            (is_survivor rest_for_one 0)
            0
            (three 5 rest_for_one).children
            (without 0 (three 5 rest_for_one)).running))
      ++ map start (
          select
            (is_revived rest_for_one 0)
            0
            (three 5 rest_for_one).children
            (three 5 rest_for_one).running)
unfolding three
on_child_exit-fan_out_example =
    on_child_exit-fan_out "a" crash 10 0 (child "a" permanent) (three 5 rest_for_one)
      (IsDue-a 5 rest_for_one) calm

on_child_exit-intensity_example :
    ((on_child_exit "a" crash 10 (three 0 one_for_all)).1.restarts
      ≡ recent 0 10 (three 0 one_for_all))
    × (on_child_exit "a" crash 10 (three 0 one_for_all) ≡ (
        if ltb
          (three 0 one_for_all).flags.intensity
          (as_u32 (length (recent 0 10 (three 0 one_for_all))))
        then give_up_now (restart_children 0 10 (without 0 (three 0 one_for_all))).1
        else restart_children 0 10 (without 0 (three 0 one_for_all))))
unfolding three
on_child_exit-intensity_example =
    on_child_exit-intensity "a" crash 10 4 0 (child "a" permanent) (three 0 one_for_all)
      (IsDue-a 0 one_for_all) (omega arith) (omega arith)

on_child_exit-gives_up_example :
    ((on_child_exit "a" crash 10 (three 0 one_for_all)).0
      ≡ map stop_child (
          reverse (
            select is_on 0
              (three 0 one_for_all).children
              (restart_children 0 10 (without 0 (three 0 one_for_all))).1.running))
        ++ give_up ∷ [])
    × ((j : ℕ) → running_at (on_child_exit "a" crash 10 (three 0 one_for_all)).1.running j ≡ false)
on_child_exit-gives_up_example =
    on_child_exit-gives_up "a" crash 10 0 (child "a" permanent) (three 0 one_for_all)
      (IsDue-a 0 one_for_all) over

on_child_exit-SparesTemporary_example :
    All SparesTemporary (on_child_exit "a" crash 10 (three 0 one_for_all)).0
unfolding three
on_child_exit-SparesTemporary_example =
    on_child_exit-SparesTemporary "a" crash 10 0 (child "a" permanent) (three 0 one_for_all)
      (IsDue-a 0 one_for_all) over refl refl
