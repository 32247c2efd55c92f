-- ===== src/Registry/Names.antt =====
-- src/registry.rs: the names of a node.
use plasmoid.Prelude.{String, Option, none, some, if◌then◌else◌, ◌==◌, string_eq}
use plasmoid.Prelude.Map.{get, insert, remove, contains_key}
use plasmoid.Pid.{Pid, pid_eq}
use plasmoid.Registry.State.{ParticleRegistry}

pub data NameResult : Type 0 where
  ok : NameResult
  already_registered : String → NameResult
  other_particle : String → NameResult
  not_registered : String → NameResult

unfoldable pub register_name : Pid → String → ParticleRegistry → NameResult × ParticleRegistry
register_name pid name r =
    if contains_key name r.names
    then (already_registered name, r)
    else (ok, record r { names = insert name pid r.names })

abbrev pub unregister_held :
    Option Pid → Pid → String → ParticleRegistry → NameResult × ParticleRegistry
unregister_held none pid name r = (not_registered name, r)
unregister_held (some owner) pid name r =
    if owner == pid
    then (ok, record r { names = remove name r.names })
    else (other_particle name, r)

unfoldable pub unregister_name : Pid → String → ParticleRegistry → NameResult × ParticleRegistry
unregister_name pid name r = unregister_held (get name r.names) pid name r

unfoldable pub lookup_name : String → ParticleRegistry → Option Pid
lookup_name name r = get name r.names
