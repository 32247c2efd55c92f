-- ===== src/Registry/Race.antt =====
-- `spawn` of src/registry.rs, whatever other tasks do before it inserts the name.
use plasmoid.Prelude.{
  ℕ, ◌≡◌, refl, String, true, false, Option, none, some, arith, Bool-cases, Option-cases, inl, inr,
  string_eq, beq_refl,
}
use plasmoid.Prelude.Map.{get, contains_key, contains_key-remove, get-insert_self}
use plasmoid.Pid.{Pid, pid_eq, next}
use plasmoid.Registry.State.{ParticleRegistry, PolicySet}
use plasmoid.Registry.Spawn.{
  SpawnResult, ok, name_taken, no_component, spawn, spawn_template, insert_particle, claim_name,
  is_taken, or_default,
}
use plasmoid.Registry.Symmetry.{is_alive}

abbrev pub Holds : Option String → Pid → ParticleRegistry → Type 0
Holds none pid r = Unit
Holds (some name) pid r = get name r.names ≡ some pid

-- A particle is there, in the table of entries and with its state, or in neither.
abbrev pub IsThere : Pid → ParticleRegistry → Type 0
IsThere pid r = (is_alive pid r ≡ true) × (contains_key pid r.particles ≡ true)

abbrev pub IsGone : Pid → ParticleRegistry → Type 0
IsGone pid r = (is_alive pid r ≡ false) × (contains_key pid r.particles ≡ false)

-- Success leaves a particle that holds its name; any error leaves none under the new pid.
abbrev pub AllOrNothing : Option String → Pid → SpawnResult × ParticleRegistry → Type 0
AllOrNothing name pid (ok p mailbox, r) = (p ≡ pid) × IsThere pid r × Holds name pid r
AllOrNothing name pid (name_taken n, r) = IsGone pid r
AllOrNothing name pid (no_component n, r) = IsGone pid r

claim_name-AllOrNothing :
    (name : Option String) (pid : Pid) (mailbox : ℕ) (r : ParticleRegistry)
    → IsThere pid r
    → AllOrNothing name pid (claim_name name pid mailbox r)
unfolding claim_name
claim_name-AllOrNothing none pid mailbox r a = (refl, a, tt)
claim_name-AllOrNothing (some n) pid mailbox r a = elim (Bool-cases (contains_key n r.names)) [
  | inl e ↦ rw e (
    ground (arith, contains_key-remove pid pid r.particle_states, beq_refl pid),
    ground (arith, contains_key-remove pid pid r.particles, beq_refl pid),
  )
  | inr e ↦ rw e (refl, a, get-insert_self n pid r.names)
]

-- A spawn whose pid is unused is all or nothing, whatever other tasks do before it inserts its
-- name, as long as the new particle has not exited by then: it returns a particle that has its
-- entry and its state and holds the name, or an error, and then neither an entry nor a state is
-- left under the pid that it drew.
pub spawn-AllOrNothing :
    (component : String) (name : Option String) (caps : Option PolicySet)
    (between : ParticleRegistry → ParticleRegistry) (r : ParticleRegistry)
    → IsGone (next r.pid_gen).0 r
    → ((defaults : PolicySet)
        → IsThere
            (next r.pid_gen).0
            (between (insert_particle component name (or_default caps defaults) r)))
    → AllOrNothing name (next r.pid_gen).0 (spawn component name caps between r)
unfolding spawn spawn_template
spawn-AllOrNothing component name caps between r unused still =
    elim (Bool-cases (is_taken name r)) [
      | inl taken ↦ rw taken unused
      | inr free ↦ elim (Option-cases (get component r.components)) [
        | inl e ↦ rw (free, e, spawn_template) unused
        | inr (defaults, e) ↦
            rw (free, e, spawn_template)
              (claim_name-AllOrNothing name (next r.pid_gen).0 r.next_mailbox
                (between (insert_particle component name (or_default caps defaults) r))
                (still defaults))
      ]
    ]
