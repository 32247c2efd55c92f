-- ===== src/Cli/Boot.antt =====
-- `cmd_start` of src/main.rs, once the arguments are read: it loads the WASM files, spawns the
-- particles asked for, and then the root of the application. The first failure ends it.
-- What the disk and the WebAssembly engine answer, and what other tasks do at the registry
-- meanwhile, are arguments.
mod Tests
use plasmoid.Prelude.{String, Bool, true, false, Option, none, some, List, [], ◌∷◌, ◌++◌}
use plasmoid.Pid.{Pid}
use plasmoid.Registry.State.{ParticleRegistry}
use plasmoid.Policy
use plasmoid.Host.Spawning.{Between}
use plasmoid.Host.Deploying.{DeployResult, deployed, load, spawn}
use plasmoid.Cli.{SpawnSpec}
use plasmoid.Cli.Start.{Manifest}

-- A WASM file: whether it can be read, its stem if that is a text, and whether it compiles.
pub record WasmFile : Type 0 where
  pub readable : Bool
  pub stem : Option String
  pub compiles : Bool

abbrev pub load_named : Bool → Option String → Bool → ParticleRegistry → Bool × ParticleRegistry
unfolding load
load_named false stem compiles r = (false, r)
load_named true none compiles r = (false, r)
load_named true (some component) compiles r = load compiles component Policy.all r

unfoldable pub load_files : List WasmFile → ParticleRegistry → Bool × ParticleRegistry
unfolding load_named
load_files [] r = (true, r)
load_files (file ∷ files) r =
    let (loaded, after) = load_named file.readable file.stem file.compiles r in
    elim loaded [ true ↦ load_files files after | false ↦ (false, after) ]

-- A particle to be started, whether it does start, and the turns of others in its spawn.
pub record Launch : Type 0 where
  pub spec : SpawnSpec
  pub starts : Bool
  pub between : Between

abbrev pub launch : Launch → ParticleRegistry → DeployResult × ParticleRegistry
unfolding spawn
launch l r = spawn l.starts l.spec.component l.spec.name (some Policy.all) l.between r

unfoldable pub launch_all :
    List Launch → List Pid → ParticleRegistry → Option (List Pid) × ParticleRegistry
unfolding launch
launch_all [] pids r = (some pids, r)
launch_all (l ∷ ls) pids r =
    let (result, after) = launch l r in
    elim result [ deployed pid ↦ launch_all ls (pids ++ pid ∷ []) after | _ ↦ (none, after) ]

-- The root as any other particle, under the name of the application.
abbrev pub root_spec : Manifest → SpawnSpec
root_spec m = record { component = m.root; name = some m.name; init_args = m.init_args }

pub data Booted : Type 0 where
  not_loaded not_spawned no_root : Booted
  running : (pids : List Pid) → Booted
  watching : (pids : List Pid) (root : Pid) → Booted

-- Whether the root starts, and the turns of others in its spawn.
pub record Rooted : Type 0 where
  pub manifest : Manifest
  pub starts : Bool
  pub between : Between

abbrev pub boot_root : Option Rooted → List Pid → ParticleRegistry → Booted × ParticleRegistry
unfolding launch
boot_root none pids r = (running pids, r)
boot_root (some a) pids r =
    let (result, after) =
      launch (record { spec = root_spec a.manifest; starts = a.starts; between = a.between }) r in
    elim result [ deployed root ↦ (watching pids root, after) | _ ↦ (no_root, after) ]

abbrev pub boot_particles :
    List Launch → Option Rooted → ParticleRegistry → Booted × ParticleRegistry
unfolding launch_all boot_root
boot_particles launches app r =
    let (spawned, after) = launch_all launches [] r in
    elim spawned [ some pids ↦ boot_root app pids after | none ↦ (not_spawned, after) ]

unfoldable pub boot :
    List WasmFile → List Launch → Option Rooted → ParticleRegistry → Booted × ParticleRegistry
unfolding load_files boot_particles
boot files launches app r =
    let (loaded, after) = load_files files r in
    elim loaded [ true ↦ boot_particles launches app after | false ↦ (not_loaded, after) ]
