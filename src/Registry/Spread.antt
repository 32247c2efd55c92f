-- ===== src/Registry/Spread.antt =====
-- Who dies of an exit in src/registry.rs: exactly those whom links reach through particles that do
-- not trap exits, if the reason is abnormal, and the particle that exits.
use plasmoid.Prelude.{
  ◌≡◌, sym, ◌∙◌, Bool, true, false, some, arith, Bool-cases, ◌⊎◌, subst, inl, inr,
}
use plasmoid.Prelude.Map.{get}
use plasmoid.Prelude.Set
use plasmoid.Pid.{Pid, pid_eq, pid_beq_iff}
use plasmoid.Message.{ExitReason}
use plasmoid.Registry.State.{ParticleRegistry, ParticleState}
use plasmoid.Registry.Exit.{exit_once, exit_now}
use plasmoid.Registry.Views.{mortal, alive-exit_once, is_linked-exit_once}
use plasmoid.Registry.Cascade.{Returns, Keeps, exit_now-Returns}
use plasmoid.Registry.Symmetry.{is_alive, linked}
use plasmoid.Registry.Fate.{mortal-exit_once, cascade-exit_once, All-contained}

abbrev pub is_mortal : Pid → ParticleRegistry → Bool
is_mortal p r = mortal (get p r.particle_states)

-- A chain of links from `pid`, each to a live particle that does not trap exits.
pub data Spreads (r : ParticleRegistry) (pid : Pid) : Pid → Type 0 where
  itself : Spreads r pid pid
  over :
      (p q : Pid) → Spreads r pid p → linked p q r ≡ true → is_mortal q r ≡ true → Spreads r pid q

-- Of what was there at `r`, nothing is new at `n`; who died since then was reached.
record Reached (r : ParticleRegistry) (pid : Pid) (n : ParticleRegistry) : Type 0 where
  died : (q : Pid) → is_alive q r ≡ true → is_alive q n ≡ false → Spreads r pid q
  links : (q p : Pid) → linked q p n ≡ true → linked q p r ≡ true
  gone : (q : Pid) → is_alive q r ≡ false → is_alive q n ≡ false
  mortals : (q : Pid) → is_mortal q n ≡ true → is_mortal q r ≡ true

pub linked-get :
    (p q : Pid) (s : ParticleState) (r : ParticleRegistry)
    → get p r.particle_states ≡ some s
    → linked p q r ≡ Set.contains q s.links
linked-get p q s r e = rw e

module _ (r : ParticleRegistry) (pid : Pid) (reason : ExitReason) where
  Keeps-Reached : Keeps (Reached r pid) (Spreads r pid) reason
  Keeps-Reached = record {
    once = λ p s n e q h. (
      record {
        died = λ d a gone. elim (Bool-cases (is_alive d n)) [
          | inr dead ↦ h.died d a dead
          | inl there ↦
              subst (Spreads r pid)
                (ground (arith, alive-exit_once p s reason n d, pid_beq_iff p d)) q
        ];
        gone = λ d a. ground (arith, alive-exit_once p s reason n d, h.gone d);
        links = λ d t l. h.links d t (ground (arith, is_linked-exit_once p s reason n d t));
        mortals = λ d m. h.mortals d (ground (arith, mortal-exit_once p s reason n d));
      },
      All-contained (Spreads r pid) (exit_once p s reason n).0 λ d c.
          over p d q
            (h.links p d (linked-get p d s n e ∙ ground (arith, cascade-exit_once p s reason n d)))
            (h.mortals d (ground (arith, cascade-exit_once p s reason n d))),
    );
  }

  -- Whom an exit takes was reached from its particle by a chain of links to particles that do not
  -- trap exits. The exit ends, and whoever was not so reached is as alive as before.
  pub exit_now-only-Spreads :
      (q : Pid)
      → Returns (λ r'. Spreads r pid q ⊎ (is_alive q r' ≡ is_alive q r)) r (exit_now pid reason r)
  exit_now-only-Spreads q =
      let (r', e, h, le) = exit_now-Returns Keeps-Reached pid r itself start in
      (r', e, fate r' h, le)
    where
      start : Reached r pid r
      start = record {
        died = λ q a gone. ground arith;
        links = λ q p l. l;
        mortals = λ q m. m;
        gone = λ q a. a;
      }

      fate :
          (n : ParticleRegistry) → Reached r pid n → Spreads r pid q ⊎ (is_alive q n ≡ is_alive q r)
      fate n h = elim (Bool-cases (is_alive q r)) [
        | inr dead ↦ inr (h.gone q dead ∙ sym dead)
        | inl there ↦ elim (Bool-cases (is_alive q n)) [
          | inl still ↦ inr (still ∙ sym there)
          | inr dead ↦ inl (h.died q there dead)
        ]
      ]
