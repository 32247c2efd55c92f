-- ===== src/Sdk/Driver/Tests.antt =====
-- Runs of the loop in crates/plasmoid-sdk/src/supervise.rs.
use plasmoid.Prelude.{ℕ, ◌≡◌, refl, false, string_eq, none, [], ◌∷◌, ◌++◌, arith}
use plasmoid.Prelude.Map.{get, remove}
use plasmoid.Sdk.Spec.{ChildSpec, child_spec, default_flags, kill, ExitReason, normal}
use plasmoid.Sdk.Driver.{Driver, boot, signal, log_warn, on_received, exit_of}
use plasmoid.Sdk.Driver.Stale.{IsRestart, restarted, after_deadline, stale_deadline_kills}

abbrev child : ChildSpec
unfolding child_spec
child = child_spec "a" "worker"

-- One child, running as "old".
abbrev one : Driver
unfolding boot child
one = record (boot default_flags (child ∷ [])) { live = ("a", "old") ∷ []; queue = [] }

differ : string_eq.beq "new" "old" ≡ false
differ = refl

one-IsRestart : IsRestart one child "old" "new" 5000 10 20 6000 normal none
unfolding one child get remove
one-IsRestart = record {
  is_live = refl;
  idle = refl;
  distinct = ground (arith, string_eq.beq_iff "new" "old", differ);
  old_once = refl;
  new_fresh = refl;
}

stale_deadline_kills_example :
    ((after_deadline one child "old" "new" 5000 10 20 6000 normal none).effects
      ≡ ((restarted one child "old" "new" 5000 10 20 6000 normal none).effects
          ++ log_warn child.id ∷ [])
        ++ signal "new" kill ∷ [])
    × (get child.id (after_deadline one child "old" "new" 5000 10 20 6000 normal none).live ≡ none)
    × ((after_deadline one child "old" "new" 5000 10 20 6000 normal none).sup ≡ one.sup)
    × ((t : ℕ) (r : ExitReason)
        → on_received t
            (exit_of "new" r)
            (after_deadline one child "old" "new" 5000 10 20 6000 normal none)
          ≡ after_deadline one child "old" "new" 5000 10 20 6000 normal none)
stale_deadline_kills_example =
    stale_deadline_kills one child "old" "new" 5000 10 20 6000 normal none one-IsRestart
      (omega arith)
