-- ===== src/Registry/Cascade.antt =====
-- The recursion of `exit_particle` in src/registry.rs: it ends, and how to reason about it.
use plasmoid.Prelude.{
  ℕ, zero, suc, ◌≤◌, ◌≡◌, refl, Option, none, some, List, [], ◌∷◌, arith, Option-cases, inl, inr,
  length, All, false,
}
use plasmoid.Prelude.Map.{Map, get, contains_key}
use plasmoid.Pid.{Pid, pid_eq}
use plasmoid.Message.{ExitReason}
use plasmoid.Registry.State.{ParticleRegistry, ParticleState}
use plasmoid.Registry.Exit.{exit_once, cascade_kills, exit_particle, exit_now}
use plasmoid.Registry.Views.{length-exit_once, alive-exit_once}

-- A result was reached, no larger than before, and it satisfies the predicate.
abbrev pub Returns :
    (ParticleRegistry → Type 0) → ParticleRegistry → Option ParticleRegistry → Type 0
Returns P r o =
    (r' : ParticleRegistry) × (o ≡ some r')
    × P r'
    × (length r'.particle_states ≤ length r.particle_states)

pub get-empty : (pid : Pid) (m : Map Pid ParticleState) → length m ≤ 0 → get pid m ≡ none
unfolding get
get-empty pid [] h = refl
get-empty pid (e ∷ m) h = absurd (omega arith)

-- What one exit must do for `P` to hold through a whole cascade, started at a pid with `Q`.
pub record Keeps (P : ParticleRegistry → Type 0) (Q : Pid → Type 0) (reason : ExitReason)
    : Type 0 where
  pub once :
      (pid : Pid) (s : ParticleState) (r : ParticleRegistry)
      → get pid r.particle_states ≡ some s
      → Q pid
      → P r
      → P (exit_once pid s reason r).1 × All Q (exit_once pid s reason r).0

module _ {P : ParticleRegistry → Type 0} {Q : Pid → Type 0} {reason : ExitReason}
    (keeps : Keeps P Q reason) where
  cascade_kills-Returns :
      (go : Pid → ParticleRegistry → Option ParticleRegistry) (n : ℕ)
      → ((p : Pid) (r : ParticleRegistry)
          → length r.particle_states ≤ n
          → Q p
          → P r
          → Returns P r (go p r))
      → (ps : List Pid) (r : ParticleRegistry) → length r.particle_states ≤ n
      → All Q ps
      → P r
      → Returns P r (cascade_kills go ps r)
  unfolding cascade_kills
  cascade_kills-Returns go n ok [] r fits qs h = (r, refl, h, omega arith)
  cascade_kills-Returns go n ok (p ∷ ps) r fits qs h =
      let (r', e, h', le) = ok p r fits qs.0 h in
      let (r'', e', h'', le') = cascade_kills-Returns go n ok ps r' (omega arith) qs.1 h' in
      (r'', rw (e, cascade_kills) e', h'', omega arith)

  -- With fuel for every particle, an exit and the cascade that it sets off end.
  pub exit_particle-Returns :
      (fuel : ℕ) (pid : Pid) (r : ParticleRegistry)
      → length r.particle_states ≤ fuel
      → Q pid
      → P r
      → Returns P r (exit_particle fuel pid reason r)
  unfolding exit_particle
  exit_particle-Returns zero pid r fits q h =
      (r, rw (get-empty pid r.particle_states fits, exit_particle), h, omega arith)
  exit_particle-Returns (suc fuel) pid r fits q h =
      elim (Option-cases (get pid r.particle_states)) [
        | inl e ↦ (r, rw (e, exit_particle), h, omega arith)
        | inr (s, e) ↦
            let (h', qs) = keeps.once pid s r e q h in
            let smaller = length-exit_once pid s reason r e in
            let (r', e', h'', le) =
              cascade_kills-Returns (λ p. exit_particle fuel p reason) fuel
                (exit_particle-Returns fuel) (exit_once pid s reason r).0
                (exit_once pid s reason r).1 (omega arith) qs h' in
            (r', rw (e, exit_particle) e', h'', omega arith)
      ]

  pub exit_now-Returns :
      (pid : Pid) (r : ParticleRegistry) → Q pid → P r → Returns P r (exit_now pid reason r)
  unfolding exit_now
  exit_now-Returns pid r q h =
      exit_particle-Returns (length r.particle_states) pid r (omega arith) q h

  exit_particle-after :
      (fuel : ℕ) (pid : Pid) (s : ParticleState) (r : ParticleRegistry)
      → length r.particle_states ≤ fuel
      → get pid r.particle_states ≡ some s
      → All Q (exit_once pid s reason r).0
      → P (exit_once pid s reason r).1
      → Returns P r (exit_particle fuel pid reason r)
  unfolding exit_particle
  exit_particle-after zero pid s r fits e qs h =
      absurd (ground (arith, get-empty pid r.particle_states fits, e))
  exit_particle-after (suc fuel) pid s r fits e qs h =
      let once = exit_once pid s reason r in
      let smaller = length-exit_once pid s reason r e in
      let (r', e', h', le) =
        cascade_kills-Returns (λ p. exit_particle fuel p reason) fuel (exit_particle-Returns fuel)
          once.0 once.1 (omega arith) qs h in
      (r', rw (e, exit_particle) e', h', omega arith)

  -- A predicate that the first exit brings about holds when the cascade has ended.
  pub exit_now-after :
      (pid : Pid) (s : ParticleState) (r : ParticleRegistry)
      → get pid r.particle_states ≡ some s
      → All Q (exit_once pid s reason r).0
      → P (exit_once pid s reason r).1
      → Returns P r (exit_now pid reason r)
  unfolding exit_now
  exit_now-after pid s r e qs h =
      exit_particle-after (length r.particle_states) pid s r (omega arith) e qs h

pub All-Unit : (ps : List Pid) → All (λ _. Unit {0}) ps
All-Unit [] = tt
All-Unit (p ∷ ps) = (tt, All-Unit ps)

-- An invariant of every exit is one of every cascade.
pub Keeps-invariant :
    (P : ParticleRegistry → Type 0) (reason : ExitReason)
    → ((pid : Pid) (s : ParticleState) (r : ParticleRegistry)
        → get pid r.particle_states ≡ some s
        → P r
        → P (exit_once pid s reason r).1)
    → Keeps P (λ _. Unit {0}) reason
Keeps-invariant P reason once = record {
  once = λ pid s r e q h. (once pid s r e h, All-Unit (exit_once pid s reason r).0);
}

-- Who is not alive stays so.
IsGone : Pid → ParticleRegistry → Type 0
IsGone q r = contains_key q r.particle_states ≡ false

Keeps-IsGone : (q : Pid) (reason : ExitReason) → Keeps (IsGone q) (λ _. Unit {0}) reason
unfolding IsGone
Keeps-IsGone q reason =
    Keeps-invariant (IsGone q) reason
      λ pid s r e h. ground (arith, alive-exit_once pid s reason r q)
