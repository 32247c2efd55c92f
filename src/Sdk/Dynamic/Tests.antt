-- ===== src/Sdk/Dynamic/Tests.antt =====
-- Runs of the dynamic supervisor in crates/plasmoid-sdk/src/supervisor.rs, after the tests at its
-- end.
use plasmoid.Prelude.{
  ◌≡◌, refl, String, List, [], ◌∷◌, ◌++◌, map, length, arith, ltb, if◌then◌else◌,
}
use plasmoid.Sdk.Spec.{
  ChildSpec, child_spec, default_flags, permanent, temporary, transient, Restart, kill, normal,
  stop_child, start, give_up, as_u32, should_restart,
}
use plasmoid.Sdk.Dynamic.{DynamicSupervisor, new, on_child_exit}
use plasmoid.Sdk.Dynamic.Children.{Event, starts, exits, terminates, shuts_down}
use plasmoid.Sdk.Dynamic.Churn.{recent, on_child_exit-brake}

abbrev child : String → Restart → ChildSpec
unfolding child_spec
child id restart = record (child_spec id "worker") { restart = restart }

abbrev events : List Event
unfolding child
events =
    starts (child "a" permanent)
    ∷ starts (child "a" temporary)
    ∷ starts (child "b" transient)
    ∷ exits "b" normal 5
    ∷ exits "a" kill 6
    ∷ terminates "a"
    ∷ starts (child "a" permanent)
    ∷ []

abbrev two : DynamicSupervisor
unfolding new child
two = record (new default_flags) {
  children = child "a" permanent ∷ child "b" transient ∷ [];
  restarts = 3 ∷ [];
}

abbrev churn : List Event
unfolding child
churn =
    starts (child "a" temporary) ∷ starts (child "b" temporary) ∷ exits "a" kill 6 ∷ shuts_down ∷ []

on_child_exit-brake_example : on_child_exit "b" kill 9 two ≡ (
    if ltb two.intensity (as_u32 (length (recent 9 two)))
    then (
      map stop_child two.children ++ give_up ∷ [],
      record two { children = []; restarts = recent 9 two },
    )
    else (start (child "b" transient) ∷ [], record two { restarts = recent 9 two }))
unfolding two child should_restart
on_child_exit-brake_example =
    on_child_exit-brake "b" kill 9 4 (child "a" permanent ∷ []) [] (child "b" transient) two refl
      (refl, tt) refl refl (omega arith, omega arith) (omega arith)
