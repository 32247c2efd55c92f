-- ===== src/Cli/Main.antt =====
-- `main` of src/main.rs: which command the arguments ask for. The first argument is the program's name.
use plasmoid.Prelude.{String, string_eq, List, [], ◌∷◌, if◌then◌else◌, ◌==◌}

-- `call` and `run` were replaced, and are refused with the word to use.
pub data Request : Type 0 where
  new component_new start spawn send : (args : List String) → Request
  component_usage : Request
  use_send use_start_or_spawn : Request
  no_command : Request

abbrev pub component_request : List String → Request
component_request [] = component_usage
component_request (word ∷ args) = if word == "new" then component_new args else component_usage

abbrev pub request : String → List String → Request
request command args =
    if command == "new"
    then new args
    else if command == "component"
    then component_request args
    else if command == "start"
    then start args
    else if command == "spawn"
    then spawn args
    else if command == "send"
    then send args
    else if command == "call"
    then use_send
    else if command == "run"
    then use_start_or_spawn
    else no_command

unfoldable pub main : List String → Request
main (program ∷ command ∷ args) = request command args
main _ = no_command
