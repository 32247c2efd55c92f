-- ===== src/Host/Deploying/Found.antt =====
-- src/runtime/engine.rs: that what is deployed under a name is found under it.
use plasmoid.Prelude.{
  ◌≡◌, refl, sym, ap, ◌∙◌, String, Bool, true, false, some, if◌then◌else◌, string_eq,
}
use plasmoid.Prelude.Map.{get, contains_key, get-insert_self}
use plasmoid.Pid.{pid_eq, next}
use plasmoid.Registry.State.{ParticleRegistry, PolicySet}
use plasmoid.Registry.Spawn.{register_component}
use plasmoid.Registry.Send.{get_by_name, particle_exists}
use plasmoid.Host.Spawning.Unstarted.{
  after_spawn, spawn-free, after_spawn-found, after_spawn-exists,
}
use plasmoid.Host.Deploying.{
  DeployResult, deployed, not_compiled, not_started, deploy_found, deploy_started, spawn, load,
  deploy,
}

registered-component :
    (component : String) (caps : PolicySet) (r : ParticleRegistry)
    → get component (register_component component caps r).components ≡ some caps
unfolding register_component
registered-component component caps r = get-insert_self component caps r.components

registered-names :
    (component name : String) (caps : PolicySet) (r : ParticleRegistry)
    → contains_key name (register_component component caps r).names ≡ contains_key name r.names
unfolding register_component
registered-names component name caps r = refl

registered-next :
    (component : String) (caps : PolicySet) (r : ParticleRegistry)
    → (register_component component caps r).pid_gen ≡ r.pid_gen
unfolding register_component
registered-next component caps r = refl

spawn-loaded :
    (starts : Bool) (component name : String) (caps : PolicySet) (r : ParticleRegistry)
    → get component r.components ≡ some caps
    → contains_key name r.names ≡ false
    → spawn starts component (some name) (some caps) (λ q. q) r ≡ (
      if starts then deployed (next r.pid_gen).0 else not_started,
      after_spawn component name caps r,
    )
unfolding spawn
spawn-loaded starts component name caps r known free =
    ap (λ found. deploy_found found starts component (some name) (some caps) (λ q. q) r) known
    ∙ ap (deploy_started starts) (spawn-free component name caps caps r known free)

deploy-compiled :
    (starts : Bool) (component name : String) (caps : PolicySet) (r : ParticleRegistry)
    → deploy true starts component (some name) caps (λ q. q) r
      ≡ spawn starts component
          (some name)
          (some caps)
          (λ q. q)
          (register_component component caps r)
unfolding deploy load
deploy-compiled starts component name caps r = refl

-- Deploying code under a free name, with no other task at the registry meanwhile. If the code
-- compiles then the next pid is found under the name, and its particle is there, whether or not it
-- started; the answer is that pid if it did. If the code does not compile then nothing changes.
pub deploy-found :
    (starts : Bool) (component name : String) (caps : PolicySet) (r : ParticleRegistry)
    → contains_key name r.names ≡ false
    → (deploy false starts component (some name) caps (λ q. q) r ≡ (not_compiled, r))
      × ((deploy true starts component (some name) caps (λ q. q) r).0
          ≡ (if starts then deployed (next r.pid_gen).0 else not_started))
      × (get_by_name name (deploy true starts component (some name) caps (λ q. q) r).1
          ≡ some (next r.pid_gen).0)
      × (particle_exists
            (next r.pid_gen).0
            (deploy true starts component (some name) caps (λ q. q) r).1
          ≡ true)
unfolding deploy load
deploy-found starts component name caps r free =
    let known = register_component component caps r in
    let done =
      deploy-compiled starts component name caps r
      ∙ spawn-loaded starts component name caps known (registered-component component caps r)
          (registered-names component name caps r ∙ free) in
    let same = registered-next component caps r in
    (
      refl,
      ap (λ (o : DeployResult × ParticleRegistry). o.0) done
          ∙ ap (λ g. if starts then deployed (next g).0 else not_started) same,
      ap (λ (o : DeployResult × ParticleRegistry). get_by_name name o.1) done
          ∙ after_spawn-found component name caps known
          ∙ ap (λ g. some (next g).0) same,
      ap (λ (o : DeployResult × ParticleRegistry). particle_exists (next r.pid_gen).0 o.1) done
          ∙ ap (λ g. particle_exists (next g).0 (after_spawn component name caps known)) (sym same)
          ∙ after_spawn-exists component name caps known,
    )
