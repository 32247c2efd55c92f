-- ===== src/Host/Names.antt =====
-- src/runtime/invoke.rs: the names of this node, and the texts of nodes, as a particle asks for them.
pub mod Reads
use plasmoid.Prelude.{String, Bool, Option, none, some, List, [], if◌then◌else◌, string_eq}
use plasmoid.Pid.{Pid, EndpointId}
use plasmoid.Pid.Key.{NodeIds, Text}
use plasmoid.Registry.State.{ParticleRegistry}
use plasmoid.Registry.Send.{resolve_target}
use plasmoid.Registry.Names
use plasmoid.Registry.Names.{NameResult, register_name, unregister_name, lookup_name}
use plasmoid.Host.{HostState}

-- `Result<(), RegistryError>`
pub data RegistryAnswer : Type 0 where
  done : RegistryAnswer
  already_registered not_registered : RegistryAnswer

abbrev pub answer_or : RegistryAnswer → NameResult → RegistryAnswer
answer_or failure Names.ok = done
answer_or failure _ = failure

unfoldable pub register : String → HostState → ParticleRegistry → RegistryAnswer × ParticleRegistry
unfolding register_name
register name h r =
    let (result, r') = register_name h.pid name r in
    if h.has_registry then (answer_or already_registered result, r') else (not_registered, r)

unfoldable pub unregister :
    String → HostState → ParticleRegistry → RegistryAnswer × ParticleRegistry
unfolding unregister_name
unregister name h r =
    let (result, r') = unregister_name h.pid name r in
    if h.has_registry then (answer_or not_registered result, r') else (not_registered, r)

unfoldable pub lookup : String → HostState → ParticleRegistry → Option Pid
unfolding lookup_name
lookup name h r = if h.has_registry then lookup_name name r else none

-- `show` is `Pid`'s `Display`.
unfoldable pub resolve : (show : Pid → String) → String → HostState → ParticleRegistry → Option Pid
unfolding resolve_target
resolve show pid_string h r = if h.has_registry then resolve_target show pid_string r else none

module _ ⦃ids : NodeIds⦄ where
  abbrev pub hex_of : Option EndpointId → Text
  hex_of none = []
  hex_of (some node) = ids.hex_encode (ids.as_bytes node)

  unfoldable pub self_node : HostState → Text
  self_node h = hex_of h.endpoint

  abbrev pub home_of : Option Pid → Option EndpointId
  home_of none = none
  home_of (some p) = some p.node

  -- What the resource table has for the handle.
  unfoldable pub node_of : Option Pid → Text
  node_of found = hex_of (home_of found)
