-- ===== src/Registry/Alone.antt =====
-- An exit in src/registry.rs with the reason `Normal` takes its particle alone.
use plasmoid.Prelude.{
  ℕ, zero, suc, ◌≡◌, refl, ap, ◌∙◌, false, none, [], arith, length, if◌then◌else◌, ◌==◌,
  Option-cases, inl, inr, ◌≤◌,
}
use plasmoid.Prelude.Map.{get, contains_key-get}
use plasmoid.Prelude.Set
use plasmoid.Pid.{Pid, pid_eq, pid_beq_iff}
use plasmoid.Message.{ExitReason, is_abnormal}
use plasmoid.Registry.State.{ParticleRegistry, ParticleState}
use plasmoid.Registry.Exit.{exit_once, exit_now, exit_particle, cascade_kills}
use plasmoid.Registry.Views.{alive-exit_once, length-exit_once}
use plasmoid.Registry.Fate.{cascade-exit_once}
use plasmoid.Registry.Cascade.{Returns, get-empty}
use plasmoid.Registry.Symmetry.{is_alive}

no_cascade :
    (pid : Pid) (s : ParticleState) (reason : ExitReason) (r : ParticleRegistry)
    → is_abnormal reason ≡ false
    → (exit_once pid s reason r).0 ≡ []
no_cascade pid s reason r calm =
    Set.contains-empty (exit_once pid s reason r).0
      λ q. cascade-exit_once pid s reason r q ∙ rw calm refl

-- Who lives after a normal exit.
abbrev pub AllBut : Pid → ParticleRegistry → ParticleRegistry → Type 0
AllBut pid r r' = (q : Pid) → is_alive q r' ≡ (if pid == q then false else is_alive q r)

-- A particle that is not there.
absent-AllBut :
    (pid : Pid) (r : ParticleRegistry) → get pid r.particle_states ≡ none → AllBut pid r r
absent-AllBut pid r e q =
    ground (arith, contains_key-get pid r.particle_states, e, pid_beq_iff pid q)

exit_particle-normal :
    (fuel : ℕ) (pid : Pid) (reason : ExitReason) (r : ParticleRegistry)
    → is_abnormal reason ≡ false
    → length r.particle_states ≤ fuel
    → Returns (AllBut pid r) r (exit_particle fuel pid reason r)
unfolding exit_particle cascade_kills
exit_particle-normal zero pid reason r calm fits =
    let e = get-empty pid r.particle_states fits in
    (r, rw (e, exit_particle) refl, absent-AllBut pid r e, omega arith)
exit_particle-normal (suc fuel) pid reason r calm fits =
    elim (Option-cases (get pid r.particle_states)) [
      | inl e ↦ (r, rw (e, exit_particle) refl, absent-AllBut pid r e, omega arith)
      | inr (s, e) ↦
          let once = exit_once pid s reason r in
          (
            once.1,
            rw (e, exit_particle)
                (ap (λ ps. cascade_kills (λ p. exit_particle fuel p reason) ps once.1)
                  (no_cascade pid s reason r calm)),
            alive-exit_once pid s reason r,
            omega (arith, length-exit_once pid s reason r e),
          )
    ]

-- A normal exit ends, and takes the particle that exits and no other.
pub exit_now-normal :
    (pid : Pid) (reason : ExitReason) (r : ParticleRegistry)
    → is_abnormal reason ≡ false
    → Returns (AllBut pid r) r (exit_now pid reason r)
unfolding exit_now
exit_now-normal pid reason r calm =
    exit_particle-normal (length r.particle_states) pid reason r calm (omega arith)
