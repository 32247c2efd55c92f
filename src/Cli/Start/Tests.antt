-- ===== src/Cli/Start/Tests.antt =====
-- Runs of `cmd_start`, `cmd_spawn` and `cmd_send` of src/main.rs.
use plasmoid.Prelude.{
  String, string_eq, ◌≡◌, refl, Option, none, some, List, [], ◌∷◌, if◌then◌else◌, ◌==◌,
}
use plasmoid.Pid.{EndpointId}
use plasmoid.Cli.{done, usage, missing, unexpected, no_node, no_wasm_files, cmd_spawn, cmd_send}
use plasmoid.Cli.Start.{Disk, read_file, cmd_start}
use plasmoid.Cli.Start.Printed.{Flag, named, given, wasm_file, data_dir, peer, load_dir, spawn}

abbrev read_id : String → Option EndpointId
read_id text = if text == "a3f7" then some 3 else none

abbrev disk : Disk
disk = record {
  read_dir = λ dir.
      if dir == "debug"
      then some (
          record { path = "debug/kv.wasm"; extension = some "wasm" }
          ∷ record { path = "debug/kv.d"; extension = some "d" }
          ∷ [])
      else none;
  manifest = λ path. none;
}

abbrev flags : List Flag
flags =
    wasm_file "echo.wasm"
    ∷ spawn "echo" (given "1" ∷ named "echo" ∷ [])
    ∷ load_dir "debug" (
        record { path = "debug/kv.wasm"; extension = some "wasm" }
        ∷ record { path = "debug/kv.d"; extension = some "d" }
        ∷ [])
    ∷ peer "a3f7" 3
    ∷ data_dir "/tmp"
    ∷ spawn "kv" (named "kv" ∷ [])
    ∷ spawn "kv" []
    ∷ []

-- A flag that wants a value takes the next argument, whatever it is, and an option of no particle
-- is refused.
no_value : cmd_start read_id disk ("echo.wasm" ∷ "--peer" ∷ []) ≡ missing "--peer"
unfolding cmd_start read_file
no_value = refl

no_particle : cmd_start read_id disk ("echo.wasm" ∷ "--name" ∷ "a" ∷ []) ≡ unexpected "--name"
unfolding cmd_start read_file
no_particle = refl

no_files : cmd_start read_id disk ("--data-dir" ∷ "echo.wasm" ∷ []) ≡ no_wasm_files
unfolding cmd_start read_file
no_files = refl

spawn_named :
    cmd_spawn read_id (some "a3f7") ("echo" ∷ "--name" ∷ "e" ∷ [])
    ≡ done (3, record { component = "echo"; name = some "e"; init_args = "" })
unfolding cmd_spawn
spawn_named = refl

send_nowhere : cmd_send read_id none ("echo" ∷ "hello" ∷ []) ≡ no_node
unfolding cmd_send
send_nowhere = refl

-- With a node's id the message is still wanted.
send_nothing : cmd_send read_id none ("a3f7" ∷ "echo" ∷ []) ≡ usage
unfolding cmd_send
send_nothing = refl
