-- ===== src/Cli/Boot/Tests.antt =====
-- Runs of the start-up of src/main.rs.
use plasmoid.Prelude.{◌≡◌, refl, true, false, none, some, [], ◌∷◌}
use plasmoid.Prelude.Map.{get, insert, contains_key}
use plasmoid.App.{permanent}
use plasmoid.Protocol.Tests.{registry_of, pid_at}
use plasmoid.Cli.Boot.{WasmFile, Launch, Rooted, not_loaded, not_spawned, watching, running, boot}

abbrev echo : WasmFile
echo = record { readable = true; stem = some "echo"; compiles = true }

abbrev an_echo : Launch
an_echo = record {
  spec = record { component = "echo"; name = some "echo"; init_args = "" };
  starts = true;
  between = λ r. r;
}

abbrev app : Rooted
app = record {
  manifest = record { name = "app"; root = "echo"; restart_type = permanent; init_args = "" };
  starts = true;
  between = λ r. r;
}

boots :
    (boot (echo ∷ []) (an_echo ∷ []) (some app) (registry_of 7)).0
    ≡ watching (pid_at 7 2 ∷ []) (pid_at 7 3)
unfolding boot registry_of get insert contains_key
boots = refl

-- Two particles of one name, and a component that was not loaded.
named_twice : (boot (echo ∷ []) (an_echo ∷ an_echo ∷ []) none (registry_of 7)).0 ≡ not_spawned
unfolding boot registry_of get insert contains_key
named_twice = refl

not_there : (boot [] (an_echo ∷ []) none (registry_of 7)).0 ≡ not_spawned
unfolding boot registry_of get insert contains_key
not_there = refl

broken : (boot (record echo { compiles = false } ∷ []) [] none (registry_of 7)).0 ≡ not_loaded
unfolding boot registry_of get insert contains_key
broken = refl

no_app : (boot (echo ∷ []) (an_echo ∷ []) none (registry_of 7)).0 ≡ running (pid_at 7 2 ∷ [])
unfolding boot registry_of get insert contains_key
no_app = refl
