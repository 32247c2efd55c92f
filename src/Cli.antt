-- ===== src/Cli.antt =====
-- src/main.rs: what the commands `spawn`, `send` and `start` read from their arguments.
-- `parse`, iroh's reading of a node's id, is a parameter; so are the file system and the environment
-- where a command asks them.
pub mod Text
pub mod Main
pub mod Boot
pub mod Start
use plasmoid.Prelude.{
  String, string_eq, Bool, true, Option, none, some, List, [], ◌∷◌, if◌then◌else◌, ◌==◌,
}
use plasmoid.Pid.{EndpointId}

-- `Result<A>`, by what is complained of.
pub data Outcome {ℓ} (A : Type ℓ) : Type ℓ where
  done : A → Outcome A
  usage : Outcome A
  missing invalid : (what : String) → Outcome A
  unexpected : (argument : String) → Outcome A
  no_node no_wasm_files : Outcome A

abbrev pub and_then {ℓ κ} : {A : Type ℓ} {B : Type κ} → Outcome A → (A → Outcome B) → Outcome B
and_then (done x) f = f x
and_then usage f = usage
and_then (missing what) f = missing what
and_then (invalid what) f = invalid what
and_then (unexpected argument) f = unexpected argument
and_then no_node f = no_node
and_then no_wasm_files f = no_wasm_files

abbrev pub ParseId : Type 0
ParseId = String → Option EndpointId

abbrev pub valid {ℓ} : {A : Type ℓ} → String → Option A → Outcome A
valid what none = invalid what
valid what (some x) = done x

-- `PLASMOID_NODE`
abbrev pub from_env : ParseId → Option String → Outcome EndpointId
from_env parse none = no_node
from_env parse (some bootstrap) = valid bootstrap (parse bootstrap)

abbrev pub node_or_env : ParseId → Option String → Option EndpointId → Outcome EndpointId
node_or_env parse env (some node) = done node
node_or_env parse env none = from_env parse env

pub record SpawnSpec : Type 0 where
  pub component : String
  pub name : Option String
  pub init_args : String

abbrev pub is_spec_flag : String → Bool
is_spec_flag flag = if flag == "--name" then true else flag == "--init"

-- The options of a particle to be spawned, up to the end.
unfoldable pub spawn_options : List String → SpawnSpec → Outcome SpawnSpec
spawn_options [] spec = done spec
spawn_options (flag ∷ []) spec = if is_spec_flag flag then missing flag else unexpected flag
spawn_options (flag ∷ value ∷ args) spec =
    let named = spawn_options args (record spec { name = some value }) in
    let given = spawn_options args (record spec { init_args = value }) in
    if flag == "--name" then named else if flag == "--init" then given else unexpected flag

-- The component and its options, and then the node, which the environment may name.
abbrev pub spawn_component :
    ParseId → Option String → Option EndpointId → List String → Outcome (EndpointId × SpawnSpec)
spawn_component parse env given [] = missing "component"
spawn_component parse env given (component ∷ args) =
    and_then (spawn_options args (record { component = component; name = none; init_args = "" }))
      (λ spec. and_then (node_or_env parse env given) (λ n. done (n, spec)))

unfoldable pub cmd_spawn : ParseId → Option String → List String → Outcome (EndpointId × SpawnSpec)
unfolding spawn_options
cmd_spawn parse env [] = usage
cmd_spawn parse env (flag ∷ []) =
    if flag == "--node" then missing flag else spawn_component parse env none (flag ∷ [])
cmd_spawn parse env (flag ∷ value ∷ args) =
    if flag == "--node"
    then and_then (valid value (parse value)) (λ n. spawn_component parse env (some n) args)
    else spawn_component parse env none (flag ∷ value ∷ args)

pub record Sending : Type 0 where
  pub node : EndpointId
  pub target : String
  pub message : String

-- The first argument is a node's id, or the target.
abbrev pub sending_to : ParseId → Option String → Option EndpointId → List String → Outcome Sending
sending_to parse env (some n) (first ∷ target ∷ message ∷ _) =
    done (record { node = n; target = target; message = message })
sending_to parse env (some n) _ = usage
sending_to parse env none (target ∷ message ∷ _) =
    and_then (from_env parse env)
      (λ n. done (record { node = n; target = target; message = message }))
sending_to parse env none _ = usage

unfoldable pub cmd_send : ParseId → Option String → List String → Outcome Sending
cmd_send parse env [] = usage
cmd_send parse env (first ∷ []) = usage
cmd_send parse env (first ∷ second ∷ rest) =
    sending_to parse env (parse first) (first ∷ second ∷ rest)
