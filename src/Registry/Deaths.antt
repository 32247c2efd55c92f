-- ===== src/Registry/Deaths.antt =====
-- The death notices of src/registry.rs: what `exit_particle` publishes.
use plasmoid.Prelude.{
  ℕ, ◌+◌, ◌≡◌, refl, sym, ap, ◌∙◌, append_assoc, append-nil, some, List, [], ◌∷◌, ◌++◌, arith,
  if◌then◌else◌, ◌==◌, filter, not,
}
use plasmoid.Prelude.Map.{get, contains_key-get}
use plasmoid.Pid.{Pid, pid_eq, pid_beq_iff, is_local_to}
use plasmoid.Message.{ExitReason}
use plasmoid.Registry.State.{ParticleRegistry, ParticleState, ParticleDeath}
use plasmoid.Registry.Exit.{exit_once, exit_now, first, held}
use plasmoid.Registry.Views.{alive-exit_once, deliver_all-same}
use plasmoid.Registry.Cascade.{Returns, Keeps-invariant, exit_now-Returns, exit_now-after, All-Unit}
use plasmoid.Registry.Symmetry.{is_alive}

-- How many notices name a pid.
unfoldable pub notices : Pid → List ParticleDeath → ℕ
notices q [] = 0
notices q (d ∷ ds) = let rest = notices q ds in if d.pid == q then 1 + rest else rest

notices-append :
    (q : Pid) (ds : List ParticleDeath) (d : ParticleDeath)
    → notices q (ds ++ d ∷ []) ≡ notices q ds + (if d.pid == q then 1 else 0)
unfolding notices
notices-append q [] d = ground arith
notices-append q (e ∷ ds) d = ground (arith, notices-append q ds d)

-- One for the particle while it lives, and one for every notice of its death.
abbrev pub accounted : Pid → ParticleRegistry → ℕ
accounted q r = notices q r.deaths + (if is_alive q r then 1 else 0)

notices-exit_once :
    (pid : Pid) (s : ParticleState) (reason : ExitReason) (r : ParticleRegistry) (q : Pid)
    → notices q (exit_once pid s reason r).1.deaths
      ≡ notices q r.deaths + (if pid == q then 1 else 0)
unfolding exit_once
notices-exit_once pid s reason r q = rw deliver_all-same (notices-append q r.deaths _)

-- The notice of a particle's exit.
abbrev pub notice : Pid → ParticleState → ExitReason → ParticleRegistry → ParticleDeath
notice pid s reason r = record {
  pid = pid;
  name = first (held pid r.names);
  reason = reason;
  remote_links = filter (λ p. not (is_local_to p r.pid_gen.node)) s.links;
  remote_monitors = filter (λ w. not (is_local_to w.0 r.pid_gen.node)) s.monitored_by;
}

-- One exit publishes its notice.
pub exit_once-notice :
    (pid : Pid) (s : ParticleState) (reason : ExitReason) (r : ParticleRegistry)
    → (exit_once pid s reason r).1.deaths ≡ r.deaths ++ notice pid s reason r ∷ []
unfolding exit_once
exit_once-notice pid s reason r = rw deliver_all-same refl

pub accounted-exit_once :
    (q : Pid) (r : ParticleRegistry) (p : Pid) (s : ParticleState) (reason : ExitReason)
    (n : ParticleRegistry)
    → get p n.particle_states ≡ some s
    → accounted q n ≡ accounted q r
    → accounted q (exit_once p s reason n).1 ≡ accounted q r
accounted-exit_once q r p s reason n e h = ground (
  arith,
  notices-exit_once p s reason n q,
  alive-exit_once p s reason n q,
  pid_beq_iff p q,
  contains_key-get p n.particle_states,
  e,
)

-- An exit ends, and it publishes one notice for each particle that it takes, and none for the
-- others: notices and living add up to what they were.
pub exit_now-accounts :
    (pid : Pid) (reason : ExitReason) (r : ParticleRegistry) (q : Pid)
    → Returns (λ r'. accounted q r' ≡ accounted q r) r (exit_now pid reason r)
exit_now-accounts pid reason r q =
    exit_now-Returns
      (Keeps-invariant (λ n. accounted q n ≡ accounted q r) reason
        λ p s n e h. accounted-exit_once q r p s reason n e h)
      pid r tt refl

-- What was published since.
abbrev pub Extends : List ParticleDeath → ParticleRegistry → Type 0
Extends before r = (more : List ParticleDeath) × (r.deaths ≡ before ++ more)

Extends-exit_once :
    (before : List ParticleDeath) (pid : Pid) (s : ParticleState) (reason : ExitReason)
    (r : ParticleRegistry)
    → Extends before r
    → Extends before (exit_once pid s reason r).1
Extends-exit_once before pid s reason r (more, e) =
    let d = notice pid s reason r in
    (
      more ++ d ∷ [],
      exit_once-notice pid s reason r
          ∙ (ap (λ ds. ds ++ d ∷ []) e ∙ append_assoc before more (d ∷ [])),
    )

-- An exit ends, and the first notice that it publishes is its particle's.
pub exit_now-notice :
    (pid : Pid) (s : ParticleState) (reason : ExitReason) (r : ParticleRegistry)
    → get pid r.particle_states ≡ some s
    → Returns (Extends (r.deaths ++ notice pid s reason r ∷ [])) r (exit_now pid reason r)
exit_now-notice pid s reason r e =
    exit_now-after
      (Keeps-invariant (Extends (r.deaths ++ notice pid s reason r ∷ [])) reason
        λ p t n there h. Extends-exit_once (r.deaths ++ notice pid s reason r ∷ []) p t reason n h)
      pid s r e (All-Unit (exit_once pid s reason r).0)
      ([], exit_once-notice pid s reason r ∙ sym (append-nil _))
