-- ===== src/Cli/Start.antt =====
-- `cmd_start` of src/main.rs: what it reads from its arguments before it starts the node.
pub mod Printed
mod Tests
use plasmoid.Prelude.{
  String, string_eq, Bool, true, false, Option, none, some, List, [], ◌∷◌, ◌++◌, if◌then◌else◌,
  ◌==◌,
}
use plasmoid.Pid.{EndpointId}
use plasmoid.App.{RestartType}
use plasmoid.Cli.{
  Outcome, done, missing, unexpected, no_wasm_files, and_then, valid, ParseId, SpawnSpec,
  is_spec_flag,
}
use plasmoid.Cli.Text.{ends_with}

pub record Manifest : Type 0 where
  pub name : String
  pub root : String
  pub restart_type : RestartType
  pub init_args : String

pub record Entry : Type 0 where
  pub path : String
  pub extension : Option String

-- What the node's disk holds: the entries of a directory, and a manifest as the toml crate reads it.
pub record Disk : Type 0 where
  pub read_dir : String → Option (List Entry)
  pub manifest : String → Option Manifest

pub record Start : Type 0 where
  pub wasm_files : List String
  pub spawn_specs : List SpawnSpec
  pub data_dir : Option String
  pub peers : List EndpointId
  pub app : Option Manifest

-- With the specification whose options the inner loop is at.
abbrev pub Reading : Type 0
Reading = Option SpawnSpec × Start

unfoldable pub close : Reading → Start
close (none, s) = s
close (some spec, s) = record s { spawn_specs = s.spawn_specs ++ spec ∷ [] }

abbrev pub is_wasm : Option String → Bool
is_wasm none = false
is_wasm (some ext) = ext == "wasm"

unfoldable pub wasm_of : List Entry → List String
wasm_of [] = []
wasm_of (entry ∷ entries) =
    let rest = wasm_of entries in if is_wasm entry.extension then entry.path ∷ rest else rest

unfoldable pub load_path : Disk → String → Start → Outcome Start
unfolding wasm_of
load_path disk dir s =
    and_then (valid dir (disk.read_dir dir))
      (λ entries. done (record s { wasm_files = s.wasm_files ++ wasm_of entries }))

-- An argument is read alone, or with the one that follows it.
pub data Step : Type 0 where
  alone with_next : (after : Reading) → Step

abbrev pub with_value : Start → Outcome Step
with_value s = done (with_next (none, s))

abbrev pub set_option : String → String → SpawnSpec → SpawnSpec
set_option flag value spec =
    if flag == "--name"
    then record spec { name = some value }
    else record spec { init_args = value }

abbrev pub read_file : String → Start → Outcome Step
unfolding ends_with
read_file arg s =
    if ends_with ".wasm" arg
    then done (alone (none, record s { wasm_files = s.wasm_files ++ arg ∷ [] }))
    else unexpected arg

-- An argument of the outer loop.
abbrev pub read_flag : ParseId → Disk → String → String → Start → Outcome Step
read_flag parse disk flag value s =
    if flag == "--data-dir"
    then with_value (record s { data_dir = some value })
    else if flag == "--peer"
    then and_then (valid value (parse value))
        (λ node. with_value (record s { peers = s.peers ++ node ∷ [] }))
    else if flag == "--load-path"
    then and_then (load_path disk value s) with_value
    else if flag == "--app"
    then and_then (valid value (disk.manifest value)) (λ m. with_value (record s { app = some m }))
    else if flag == "--spawn"
    then done (with_next (some (record { component = value; name = none; init_args = "" }), s))
    else read_file flag s

unfoldable pub read : ParseId → Disk → String → String → Reading → Outcome Step
unfolding close
read parse disk flag value (none, s) = read_flag parse disk flag value s
read parse disk flag value (some spec, s) =
    if is_spec_flag flag
    then done (with_next (some (set_option flag value spec), s))
    else read_flag parse disk flag value (close (some spec, s))

abbrev pub is_value_flag : String → Bool
is_value_flag flag =
    if flag == "--data-dir"
    then true
    else if flag == "--peer"
    then true
    else if flag == "--load-path"
    then true
    else if flag == "--app"
    then true
    else flag == "--spawn"

abbrev pub read_last_flag : String → Start → Outcome Step
read_last_flag flag s = if is_value_flag flag then missing flag else read_file flag s

-- The last argument, which no other follows.
unfoldable pub read_last : String → Reading → Outcome Step
unfolding close
read_last flag (none, s) = read_last_flag flag s
read_last flag (some spec, s) =
    if is_spec_flag flag then missing flag else read_last_flag flag (close (some spec, s))

abbrev pub reached : Step → Start
unfolding close
reached (alone after) = close after
reached (with_next after) = close after

unfoldable pub read_args : ParseId → Disk → List String → Reading → Outcome Start
unfolding close read read_last
read_args parse disk [] at = done (close at)
read_args parse disk (flag ∷ []) at = and_then (read_last flag at) (λ step. done (reached step))
read_args parse disk (flag ∷ value ∷ args) at = and_then (read parse disk flag value at) (λ step.
    elim step [
      | alone after ↦ read_args parse disk (value ∷ args) after
      | with_next after ↦ read_args parse disk args after
    ])

abbrev pub need_files : List String → Start → Outcome Start
need_files [] s = no_wasm_files
need_files _ s = done s

abbrev pub nothing : Start
nothing = record { wasm_files = []; spawn_specs = []; data_dir = none; peers = []; app = none }

unfoldable pub cmd_start : ParseId → Disk → List String → Outcome Start
unfolding read_args
cmd_start parse disk args =
    and_then (read_args parse disk args (none, nothing)) (λ s. need_files s.wasm_files s)
