-- ===== src/Cli/Start/Printed.antt =====
-- `cmd_start` of src/main.rs reads flags as they are meant, in whatever order they are written.
use plasmoid.Prelude.{String, ◌≡◌, true, Option, none, some, List, [], ◌∷◌, ◌++◌}
use plasmoid.Pid.{EndpointId}
use plasmoid.Cli.{ParseId, SpawnSpec}
use plasmoid.Cli.Text.{ends_with}
use plasmoid.Cli.Start.{Manifest, Entry, Disk, Start, wasm_of}

pub data SpawnOption : Type 0 where
  named : (name : String) → SpawnOption
  given : (init_args : String) → SpawnOption

-- A flag, and what it stands for.
pub data Flag : Type 0 where
  wasm_file : (file : String) → Flag
  data_dir : (dir : String) → Flag
  peer : (text : String) (node : EndpointId) → Flag
  load_dir : (dir : String) (entries : List Entry) → Flag
  app : (path : String) (manifest : Manifest) → Flag
  spawn : (component : String) (options : List SpawnOption) → Flag

-- The options of a particle, before other arguments.
unfoldable print_options : List SpawnOption → List String → List String
print_options [] args = args
print_options (named name ∷ options) args = "--name" ∷ name ∷ print_options options args
print_options (given init_args ∷ options) args = "--init" ∷ init_args ∷ print_options options args

-- The last of each kind counts.
unfoldable name_of : Option String → List SpawnOption → Option String
name_of name [] = name
name_of _ (named name ∷ options) = name_of (some name) options
name_of name (given init_args ∷ options) = name_of name options

unfoldable init_of : String → List SpawnOption → String
init_of init_args [] = init_args
init_of init_args (named name ∷ options) = init_of init_args options
init_of _ (given init_args ∷ options) = init_of init_args options

abbrev spec_of : SpawnSpec → List SpawnOption → SpawnSpec
unfolding name_of init_of
spec_of spec options = record {
  component = spec.component;
  name = name_of spec.name options;
  init_args = init_of spec.init_args options;
}

-- Without options a particle has no name and no arguments.
abbrev plain : String → SpawnSpec
plain component = record { component = component; name = none; init_args = "" }

-- The arguments that the flags are written as.
unfoldable pub print : List Flag → List String
unfolding print_options
print [] = []
print (wasm_file file ∷ flags) = file ∷ print flags
print (data_dir dir ∷ flags) = "--data-dir" ∷ dir ∷ print flags
print (peer text node ∷ flags) = "--peer" ∷ text ∷ print flags
print (load_dir dir entries ∷ flags) = "--load-path" ∷ dir ∷ print flags
print (app path manifest ∷ flags) = "--app" ∷ path ∷ print flags
print (spawn component options ∷ flags) =
    "--spawn" ∷ component ∷ print_options options (print flags)

-- What the flags ask for, each by itself.
unfoldable pub files_of : List Flag → List String
files_of [] = []
files_of (wasm_file file ∷ flags) = file ∷ files_of flags
files_of (load_dir dir entries ∷ flags) = wasm_of entries ++ files_of flags
files_of (_ ∷ flags) = files_of flags

unfoldable specs_of : List Flag → List SpawnSpec
unfolding spec_of
specs_of [] = []
specs_of (spawn component options ∷ flags) = spec_of (plain component) options ∷ specs_of flags
specs_of (_ ∷ flags) = specs_of flags

unfoldable peers_of : List Flag → List EndpointId
peers_of [] = []
peers_of (peer text node ∷ flags) = node ∷ peers_of flags
peers_of (_ ∷ flags) = peers_of flags

-- The last one counts.
unfoldable dir_of : Option String → List Flag → Option String
dir_of dir [] = dir
dir_of _ (data_dir dir ∷ flags) = dir_of (some dir) flags
dir_of dir (_ ∷ flags) = dir_of dir flags

unfoldable app_of : Option Manifest → List Flag → Option Manifest
app_of m [] = m
app_of _ (app path m ∷ flags) = app_of (some m) flags
app_of m (_ ∷ flags) = app_of m flags

unfoldable pub meant : List Flag → Start → Start
unfolding files_of specs_of peers_of dir_of app_of
meant flags s = record {
  wasm_files = s.wasm_files ++ files_of flags;
  spawn_specs = s.spawn_specs ++ specs_of flags;
  data_dir = dir_of s.data_dir flags;
  peers = s.peers ++ peers_of flags;
  app = app_of s.app flags;
}

module _ (parse : ParseId) (disk : Disk) where
  -- A flag that says what the node's disk has, and how ids are read.
  unfoldable pub IsTrue : Flag → Type 0
  IsTrue (wasm_file file) = ends_with ".wasm" file ≡ true
  IsTrue (data_dir dir) = Unit
  IsTrue (peer text node) = parse text ≡ some node
  IsTrue (load_dir dir entries) = disk.read_dir dir ≡ some entries
  IsTrue (app path m) = disk.manifest path ≡ some m
  IsTrue (spawn component options) = Unit

  abbrev add_file : String → Start → Start
  add_file file s = record s { wasm_files = s.wasm_files ++ file ∷ [] }
