-- ===== src/Host/Deploying.antt =====
-- src/runtime/engine.rs: `Runtime::load`, `spawn` and `deploy`. Whether the code compiles, and whether
-- the particle starts, is for the WebAssembly engine to say.
pub mod Found
use plasmoid.Prelude.{String, Bool, true, false, Option, none, some, if◌then◌else◌, string_eq}
use plasmoid.Prelude.Map.{get}
use plasmoid.Pid.{Pid}
use plasmoid.Registry.State.{ParticleRegistry, PolicySet}
use plasmoid.Registry.Spawn
use plasmoid.Registry.Spawn.{register_component}
use plasmoid.Host.Spawning.{Between}

-- `Result<Pid>`, with the kind of the error.
pub data DeployResult : Type 0 where
  deployed : Pid → DeployResult
  not_compiled not_registered refused not_started : DeployResult

abbrev pub unwrap_or : Option PolicySet → PolicySet → PolicySet
unwrap_or none default = default
unwrap_or (some caps) default = caps

abbrev pub deploy_started :
    Bool → Spawn.SpawnResult × ParticleRegistry → DeployResult × ParticleRegistry
deploy_started starts (Spawn.ok pid mailbox, r) = (if starts then deployed pid else not_started, r)
deploy_started starts (Spawn.name_taken n, r) = (refused, r)
deploy_started starts (Spawn.no_component c, r) = (refused, r)

abbrev pub deploy_found :
    Option PolicySet
    → Bool
    → String
    → Option String
    → Option PolicySet
    → Between
    → ParticleRegistry
    → DeployResult × ParticleRegistry
deploy_found none starts component name capabilities between r = (not_registered, r)
deploy_found (some default_caps) starts component name capabilities between r =
    deploy_started starts
      (Spawn.spawn component name (some (unwrap_or capabilities default_caps)) between r)

unfoldable pub spawn :
    Bool
    → String
    → Option String
    → Option PolicySet
    → Between
    → ParticleRegistry
    → DeployResult × ParticleRegistry
unfolding Spawn.spawn
spawn starts component name capabilities between r =
    deploy_found (get component r.components) starts component name capabilities between r

unfoldable pub load : Bool → String → PolicySet → ParticleRegistry → Bool × ParticleRegistry
unfolding register_component
load compiles component capabilities r =
    if compiles then (true, register_component component capabilities r) else (false, r)

unfoldable pub deploy :
    Bool
    → Bool
    → String
    → Option String
    → PolicySet
    → Between
    → ParticleRegistry
    → DeployResult × ParticleRegistry
unfolding load spawn
deploy compiles starts component name capabilities between r =
    let (loaded, r') = load compiles component capabilities r in
    let answer = spawn starts component name (some capabilities) between r' in
    if loaded then answer else (not_compiled, r)
