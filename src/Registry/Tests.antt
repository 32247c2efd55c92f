-- ===== src/Registry/Tests.antt =====
-- Runs of src/registry.rs, after the tests at its end.
use plasmoid.Prelude.{
  ℕ, ◌≡◌, refl, Bool, true, false, Option, none, some, [], arith, ◌⊎◌, nat_eq, string_eq,
}
use plasmoid.Prelude.Map.{get, insert, contains_key, modify, remove}
use plasmoid.Prelude.Set
use plasmoid.Pid.{Pid, pid_eq, pid_beq_iff, pid_generator, next}
use plasmoid.Message.{ExitReason, kill, exception, is_abnormal}
use plasmoid.Registry.State.{ParticleRegistry, new, fresh_state}
use plasmoid.Registry.Spawn.{spawn, register_component, insert_particle}
use plasmoid.Registry.Relate.{link, set_trap_exit}
use plasmoid.Registry.Exit.{exit_now, apply_directed_exit}
use plasmoid.Registry.Cascade.{Returns}
use plasmoid.Registry.Symmetry.{is_alive}
use plasmoid.Registry.Sound.{IsSound}
use plasmoid.Registry.History.{registers_component, spawns, Reach, here, then_step, history-IsSound}
use plasmoid.Registry.Spread.{Spreads, itself, over, exit_now-only-Spreads}
use plasmoid.Registry.Closed.{exit_now-Spreads}
use plasmoid.Registry.Holders.{HoldersLive}
use plasmoid.Registry.Directed.{apply_directed_exit-fatal}
use plasmoid.Registry.Race.{AllOrNothing, spawn-AllOrNothing}

abbrev pid_of : ℕ → Pid
pid_of n = record { node = 7; seq = n }

-- A component, then three particles of it, the first with a name, linked in a chain; the third
-- traps exits.
abbrev ready : ParticleRegistry
unfolding new pid_generator register_component insert
ready = register_component "worker" [] (new (pid_generator 7))

abbrev first_up : ParticleRegistry
unfolding ready spawn
first_up = (spawn "worker" (some "boss") none (λ q. q) ready).1

abbrev second_up : ParticleRegistry
unfolding first_up spawn
second_up = (spawn "worker" none none (λ q. q) first_up).1

abbrev third_up : ParticleRegistry
unfolding second_up spawn
third_up = (spawn "worker" none none (λ q. q) second_up).1

abbrev chain : ParticleRegistry
unfolding third_up link set_trap_exit
chain =
    set_trap_exit (pid_of 3) true
      (link (pid_of 2) (pid_of 3) (link (pid_of 1) (pid_of 2) third_up).1).1

abbrev crash : ExitReason
crash = exception "crash"

alive_after : Pid → Option ParticleRegistry → Bool
alive_after p none = false
alive_after p (some r) = is_alive p r

chain_falls : alive_after (pid_of 2) (exit_now (pid_of 1) crash chain) ≡ false
unfolding chain exit_now alive_after modify contains_key get Set.insert is_abnormal Set.remove
chain_falls = refl

trapper_stays : alive_after (pid_of 3) (exit_now (pid_of 1) crash chain) ≡ true
unfolding chain exit_now alive_after modify contains_key get Set.insert is_abnormal Set.remove
trapper_stays = refl

started : Reach 7 (new (pid_generator 7)) first_up
unfolding ready new pid_generator first_up
started =
    then_step (then_step here (registers_component "worker" [] refl))
      (spawns "worker" (some "boss") none (omega arith) refl)

history-IsSound_example : IsSound 7 first_up
history-IsSound_example = history-IsSound 7 first_up started

second_reached : Spreads chain (pid_of 1) (pid_of 2)
unfolding chain modify contains_key get Set.insert Set.contains
second_reached = over (pid_of 1) (pid_of 2) itself refl refl

exit_now-only-Spreads_example :
    Returns
      (λ r'.
        Spreads chain (pid_of 1) (pid_of 3) ⊎ (is_alive (pid_of 3) r' ≡ is_alive (pid_of 3) chain))
      chain
      (exit_now (pid_of 1) crash chain)
exit_now-only-Spreads_example = exit_now-only-Spreads chain (pid_of 1) crash (pid_of 3)

exit_now-Spreads_example :
    Returns (λ r'. is_alive (pid_of 2) r' ≡ false) chain (exit_now (pid_of 1) crash chain)
unfolding chain modify contains_key is_abnormal get
exit_now-Spreads_example =
    exit_now-Spreads crash refl (pid_of 1) (pid_of 2) chain refl second_reached

first_up-HoldersLive : HoldersLive first_up
unfolding first_up ready get contains_key
first_up-HoldersLive = record { live = λ n p h. ground (arith, pid_beq_iff (pid_of 1) p) }

apply_directed_exit-fatal_example :
    Returns
      (λ r'. is_alive (pid_of 1) r' ≡ false)
      first_up
      (apply_directed_exit (pid_of 1) (pid_of 9) kill first_up)
unfolding first_up ready get is_abnormal contains_key
apply_directed_exit-fatal_example =
    apply_directed_exit-fatal (pid_of 1) (pid_of 9) (fresh_state 0) first_up refl kill

spawn-AllOrNothing_example : AllOrNothing (some "boss") (pid_of 1) (
    spawn "worker" (some "boss") none (λ q. (spawn "worker" (some "boss") none (λ p. p) q).1) ready)
unfolding ready next contains_key get spawn insert_particle insert remove
spawn-AllOrNothing_example =
    spawn-AllOrNothing "worker" (some "boss") none
      (λ q. (spawn "worker" (some "boss") none (λ p. p) q).1) ready (refl, refl)
      (λ defaults. (refl, refl))
