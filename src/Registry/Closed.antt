-- ===== src/Registry/Closed.antt =====
-- An exit in src/registry.rs with an abnormal reason takes everyone whom links reach.
use plasmoid.Prelude.{
  ℕ, zero, suc, ◌≤◌, ◌≡◌, refl, ◌∙◌, true, false, Option, none, some, List, [], ◌∷◌, arith,
  Option-cases, inl, inr, length, beq_refl,
}
use plasmoid.Prelude.Map.{get, contains_key-get}
use plasmoid.Prelude.Set
use plasmoid.Pid.{Pid, pid_eq, pid_beq_iff}
use plasmoid.Message.{ExitReason, is_abnormal}
use plasmoid.Registry.State.{ParticleRegistry, ParticleState}
use plasmoid.Registry.Exit.{exit_once, exit_particle, exit_now, cascade_kills}
use plasmoid.Registry.Views.{alive-exit_once, is_linked-exit_once, length-exit_once}
use plasmoid.Registry.Cascade.{Returns, get-empty}
use plasmoid.Registry.Symmetry.{is_alive, linked}
use plasmoid.Registry.Fate.{mortal-exit_once, cascade-exit_once}
use plasmoid.Registry.Spread.{is_mortal, Spreads, itself, over, linked-get}

-- From `r` to `n` particles only died: the survivors are as they were to each other.
record Shrinks (r n : ParticleRegistry) : Type 0 where
  alive : (q : Pid) → is_alive q n ≡ true → is_alive q r ≡ true
  links : (q p : Pid) → is_alive q n ≡ true → is_alive p n ≡ true → linked q p n ≡ linked q p r
  mortals : (q : Pid) → is_alive q n ≡ true → is_mortal q n ≡ is_mortal q r
  size : length n.particle_states ≤ length r.particle_states

-- The dead since `r` have taken their mortal links with them at `n`.
abbrev Took : ParticleRegistry → ParticleRegistry → ParticleRegistry → Type 0
Took r m n =
    (d q : Pid)
    → is_alive d r ≡ true
    → is_alive d m ≡ false
    → linked d q r ≡ true
    → is_mortal q r ≡ true
    → is_alive q n ≡ false

Shrinks-refl : (r : ParticleRegistry) → Shrinks r r
Shrinks-refl r = record {
  alive = λ q a. a;
  links = λ q p a b. refl;
  mortals = λ q a. refl;
  size = omega arith;
}

Shrinks-trans : {r m n : ParticleRegistry} → Shrinks r m → Shrinks m n → Shrinks r n
Shrinks-trans x y = record {
  alive = λ q a. x.alive q (y.alive q a);
  links = λ q p a b. y.links q p a b ∙ x.links q p (y.alive q a) (y.alive p b);
  mortals = λ q a. y.mortals q a ∙ x.mortals q (y.alive q a);
  size = omega (arith, x.size, y.size);
}

Took-trans :
    {r m n : ParticleRegistry} → Took r m n → Shrinks r m → Shrinks m n → Took m n n → Took r n n
Took-trans {r} {m} {n} first x y rest d q there gone l z =
    ground (arith, first d q, x.links d q, x.mortals q, y.alive q, rest d q, y.alive d)

-- What an exit leaves: the dead took theirs, and the one that exits is dead.
record Ends (p : Pid) (r n : ParticleRegistry) : Type 0 where
  shrinks : Shrinks r n
  took : Took r n n
  dead : is_alive p n ≡ false

record EndsAll (ps : List Pid) (r n : ParticleRegistry) : Type 0 where
  shrinks : Shrinks r n
  took : Took r n n
  dead : (p : Pid) → Set.contains p ps ≡ true → is_alive p n ≡ false

Shrinks-exit_once :
    (pid : Pid) (s : ParticleState) (reason : ExitReason) (r : ParticleRegistry)
    → get pid r.particle_states ≡ some s
    → Shrinks r (exit_once pid s reason r).1
Shrinks-exit_once pid s reason r e = record {
  alive = λ q a. ground (arith, alive-exit_once pid s reason r q);
  links = λ q p a b. ground (
    arith,
    is_linked-exit_once pid s reason r q p,
    alive-exit_once pid s reason r q,
    alive-exit_once pid s reason r p,
  );
  mortals =
      λ q a. ground (arith, mortal-exit_once pid s reason r q, alive-exit_once pid s reason r q);
  size = omega (arith, length-exit_once pid s reason r e);
}

-- The exit of a particle that is not there.
stays : (pid : Pid) (r : ParticleRegistry) → get pid r.particle_states ≡ none → Ends pid r r
stays pid r e = record {
  shrinks = Shrinks-refl r;
  took = λ d q there gone l z. ground arith;
  dead = ground (arith, contains_key-get pid r.particle_states, e);
}

module _ (reason : ExitReason) (abnormal : is_abnormal reason ≡ true) where
  exit_once-Took :
      (pid : Pid) (s : ParticleState) (r n : ParticleRegistry)
      → get pid r.particle_states ≡ some s
      → EndsAll (exit_once pid s reason r).0 (exit_once pid s reason r).1 n
      → Took r (exit_once pid s reason r).1 n
  exit_once-Took pid s r n e h d q there gone l z = ground (
    arith,
    alive-exit_once pid s reason r d,
    alive-exit_once pid s reason r q,
    cascade-exit_once pid s reason r q,
    h.dead q,
    h.shrinks.alive q,
    pid_beq_iff pid d,
    pid_beq_iff pid q,
    linked-get pid q s r e,
    abnormal,
  )

  kills_all :
      (go : Pid → ParticleRegistry → Option ParticleRegistry) (n : ℕ)
      → ((p : Pid) (r : ParticleRegistry)
          → length r.particle_states ≤ n
          → (r' : ParticleRegistry) × (go p r ≡ some r') × Ends p r r')
      → (ps : List Pid) (r : ParticleRegistry) → length r.particle_states ≤ n
      → (r' : ParticleRegistry) × (cascade_kills go ps r ≡ some r') × EndsAll ps r r'
  unfolding cascade_kills Set.contains
  kills_all go n ok [] r fits = (
    r,
    refl,
    record {
      shrinks = Shrinks-refl r;
      took = λ d q there gone l z. ground arith;
      dead = λ p c. ground arith;
    },
  )
  kills_all go n ok (p ∷ ps) r fits =
      let (m, e, one) = ok p r fits in
      let (r', e', rest) = kills_all go n ok ps m (omega (arith, one.shrinks.size)) in
      (
        r',
        rw (e, cascade_kills) e',
        record {
          shrinks = Shrinks-trans one.shrinks rest.shrinks;
          took =
              Took-trans (λ d q there gone l z. ground (arith, one.took d q, rest.shrinks.alive q))
                one.shrinks rest.shrinks rest.took;
          dead =
              λ q c. ground (arith, pid_beq_iff p q, one.dead, rest.shrinks.alive q, rest.dead q);
        },
      )

  exit_particle-Ends :
      (fuel : ℕ) (pid : Pid) (r : ParticleRegistry)
      → length r.particle_states ≤ fuel
      → (r' : ParticleRegistry) × (exit_particle fuel pid reason r ≡ some r') × Ends pid r r'
  unfolding exit_particle
  exit_particle-Ends zero pid r fits =
      let e = get-empty pid r.particle_states fits in (r, rw (e, exit_particle), stays pid r e)
  exit_particle-Ends (suc fuel) pid r fits = elim (Option-cases (get pid r.particle_states)) [
    | inl e ↦ (r, rw (e, exit_particle), stays pid r e)
    | inr (s, e) ↦
        let smaller = length-exit_once pid s reason r e in
        let once = Shrinks-exit_once pid s reason r e in
        let (r', e', all) =
          kills_all (λ p. exit_particle fuel p reason) fuel (exit_particle-Ends fuel)
            (exit_once pid s reason r).0 (exit_once pid s reason r).1 (omega arith) in
        (
          r',
          rw (e, exit_particle) e',
          record {
            shrinks = Shrinks-trans once all.shrinks;
            took = Took-trans (exit_once-Took pid s r r' e all) once all.shrinks all.took;
            dead =
                ground
                  (arith, alive-exit_once pid s reason r pid, beq_refl pid, all.shrinks.alive pid);
          },
        )
  ]

  -- Whoever links reach from a particle through those that do not trap exits dies of its exit,
  -- if the reason is abnormal; and the exit, with its cascade, ends.
  pub exit_now-Spreads :
      (pid q : Pid) (r : ParticleRegistry)
      → is_alive pid r ≡ true
      → Spreads r pid q
      → Returns (λ r'. is_alive q r' ≡ false) r (exit_now pid reason r)
  unfolding exit_now
  exit_now-Spreads pid q r there s =
      let (r', e, h) = exit_particle-Ends (length r.particle_states) pid r (omega arith) in
      (r', e, (reached r' h q s).1, h.shrinks.size)
    where
      reached :
          (n : ParticleRegistry)
          → Ends pid r n
          → (q : Pid) → Spreads r pid q
          → (is_alive q r ≡ true) × (is_alive q n ≡ false)
      reached n h _ itself = (there, h.dead)
      reached n h _ (over p t s l m) =
          let (lived, died) = reached n h p s in
          (ground (arith, m, contains_key-get t r.particle_states), h.took p t lived died l m)
