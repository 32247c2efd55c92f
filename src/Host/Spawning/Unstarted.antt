-- ===== src/Host/Spawning/Unstarted.antt =====
-- src/runtime/invoke.rs: what is left of a particle that could not be started.
use plasmoid.Prelude.{
  String, ◌≡◌, refl, ap, ◌∙◌, Bool, true, false, Option, some, string_eq, nat_eq, arith,
  if◌then◌else◌, beq_refl,
}
use plasmoid.Prelude.Map.{get, insert, contains_key, contains_key-insert, get-insert_self}
use plasmoid.Pid.{Pid, pid_eq, next}
use plasmoid.Mailbox.{SpawnFailure, init_failed, SpawnOutcome, spawned, failed}
use plasmoid.Registry.State.{ParticleRegistry, PolicySet, fresh_state}
use plasmoid.Registry.Send.{get_by_name, particle_exists}
use plasmoid.Registry.Spawn
use plasmoid.Registry.Spawn.{insert_particle, is_taken, claim_name}
use plasmoid.Host.{HostState}
use plasmoid.Host.Spawning.{Between, spawn, spawn_template, start_spawned}

-- The registry after a spawn under a free name.
abbrev pub after_spawn : String → String → PolicySet → ParticleRegistry → ParticleRegistry
after_spawn component name caps r =
    let inserted = insert_particle component (some name) caps r in
    record inserted { names = insert name (next r.pid_gen).0 inserted.names }

pub after_spawn-found :
    (component name : String) (caps : PolicySet) (r : ParticleRegistry)
    → get_by_name name (after_spawn component name caps r) ≡ some (next r.pid_gen).0
unfolding get_by_name
after_spawn-found component name caps r =
    get-insert_self name (next r.pid_gen).0 (insert_particle component (some name) caps r).names

after_spawn-taken :
    (component name : String) (caps : PolicySet) (r : ParticleRegistry)
    → contains_key name (after_spawn component name caps r).names ≡ true
after_spawn-taken component name caps r = ground (
  arith,
  contains_key-insert name name (next r.pid_gen).0
      (insert_particle component (some name) caps r).names,
  beq_refl name,
)

pub after_spawn-exists :
    (component name : String) (caps : PolicySet) (r : ParticleRegistry)
    → particle_exists (next r.pid_gen).0 (after_spawn component name caps r) ≡ true
unfolding particle_exists insert_particle
after_spawn-exists component name caps r = ground (
  arith,
  contains_key-insert (next r.pid_gen).0 (next r.pid_gen).0 (fresh_state r.next_mailbox)
      r.particle_states,
  beq_refl (next r.pid_gen).0,
)

after_spawn-components :
    (component name : String) (caps : PolicySet) (r : ParticleRegistry)
    → get component r.components ≡ some caps
    → get component (after_spawn component name caps r).components ≡ some caps
unfolding insert_particle
after_spawn-components component name caps r known = known

pub spawn-free :
    (component name : String) (caps given : PolicySet) (r : ParticleRegistry)
    → get component r.components ≡ some caps
    → contains_key name r.names ≡ false
    → Spawn.spawn component (some name) (some given) (λ q. q) r
      ≡ (Spawn.ok (next r.pid_gen).0 r.next_mailbox, after_spawn component name given r)
unfolding Spawn.spawn
spawn-free component name caps given r known free = ground arith

spawn-taken :
    (component name : String) (given : Option PolicySet) (between : Between) (r : ParticleRegistry)
    → contains_key name r.names ≡ true
    → Spawn.spawn component (some name) given between r ≡ (Spawn.name_taken name, r)
unfolding Spawn.spawn
spawn-taken component name given between r taken = rw taken refl

start_spawned-free :
    (starts : Bool) (unable : SpawnFailure) (prepare : Pid → ParticleRegistry → ParticleRegistry)
    (component name : String) (caps : PolicySet) (r : ParticleRegistry)
    → get component r.components ≡ some caps
    → contains_key name r.names ≡ false
    → spawn_template
        (get component r.components)
        starts
        unable
        prepare
        component
        (some name)
        (λ q. q)
        r
      ≡ (
        if starts then spawned (next r.pid_gen).0 else failed init_failed,
        prepare (next r.pid_gen).0 (after_spawn component name caps r),
      )
start_spawned-free starts unable prepare component name caps r known free =
    ap (λ found. spawn_template found starts unable prepare component (some name) (λ q. q) r) known
    ∙ ap (start_spawned starts unable prepare) (spawn-free component name caps caps r known free)

spawn-unfolded :
    (starts : Bool) (component : String) (name : Option String) (between : Between) (h : HostState)
    (r : ParticleRegistry)
    → h.has_registry ≡ true
    → spawn starts component name between h r
      ≡ spawn_template
          (get component r.components)
          starts
          init_failed
          (λ pid q. q)
          component
          name
          between
          r
unfolding spawn
spawn-unfolded starts component name between h r has = rw has refl

-- A template makes no difference to a name that is taken: the answer is a failed start.
spawn_template-taken :
    (found : Option PolicySet) (starts : Bool) (component name : String) (between : Between)
    (caps : PolicySet) (r : ParticleRegistry)
    → found ≡ some caps
    → contains_key name r.names ≡ true
    → (spawn_template found starts init_failed (λ pid q. q) component (some name) between r).0
      ≡ failed init_failed
spawn_template-taken found starts component name between caps r known taken =
    ap (λ f. (spawn_template f starts init_failed (λ pid q. q) component (some name) between r).0)
      known
    ∙ ap (λ s. (start_spawned starts init_failed (λ pid q. q) s).0)
        (spawn-taken component name (some caps) between r taken)

-- A particle that the engine could not start stays in the registry. If `spawn` is asked for a
-- component that is registered, under a name that is free, no other task acts meanwhile, and the
-- start fails, then the caller is told `InitFailed`, and yet the name and the particle, which no
-- task runs, are there; and every later attempt by the caller at that component under that name
-- fails with `InitFailed` too, whether it could start or not, as long as the registry and the
-- caller's state are left like that.
pub spawn-unstarted :
    (component name : String) (caps : PolicySet) (starts : Bool) (between : Between) (h : HostState)
    (r : ParticleRegistry)
    → h.has_registry ≡ true
    → get component r.components ≡ some caps
    → contains_key name r.names ≡ false
    → ((spawn false component (some name) (λ q. q) h r).0 ≡ failed init_failed)
      × (get_by_name name (spawn false component (some name) (λ q. q) h r).1
          ≡ some (next r.pid_gen).0)
      × (particle_exists (next r.pid_gen).0 (spawn false component (some name) (λ q. q) h r).1
          ≡ true)
      × ((spawn starts component
            (some name)
            between
            h
            (spawn false component (some name) (λ q. q) h r).1).0
          ≡ failed init_failed)
spawn-unstarted component name caps starts between h r has known free =
    let first =
      spawn-unfolded false component (some name) (λ q. q) h r has
      ∙ start_spawned-free false init_failed (λ pid q. q) component name caps r known free in
    let r' = after_spawn component name caps r in
    rw first (
      refl,
      after_spawn-found component name caps r,
      after_spawn-exists component name caps r,
      ap (λ (o : SpawnOutcome × ParticleRegistry). o.0)
            (spawn-unfolded starts component (some name) between h r' has)
          ∙ spawn_template-taken (get component r'.components) starts component name between caps r'
              (after_spawn-components component name caps r known)
              (after_spawn-taken component name caps r),
    )
