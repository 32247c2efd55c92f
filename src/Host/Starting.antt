-- ===== src/Host/Starting.antt =====
-- src/runtime/invoke.rs: the arguments of a start function, its result, and the task that runs it.
-- wasm-wave and the values of components are a parameter, `Wave`; a text of arguments is the list
-- of its characters' code points.
pub mod Arity
pub mod Ends
mod Tests
use Prim.Native.String.{◌++◌}
use plasmoid.Prelude.{
  ℕ, zero, suc, String, Bool, true, false, ◌&&◌, ◌||◌, Option, none, some, List, [], ◌∷◌, length,
  reverse, if◌then◌else◌, ◌==◌, nat_eq, leb,
}
use plasmoid.Pid.{Pid}
use plasmoid.Pid.Key.{Text}
use plasmoid.Message.{ExitReason, normal, exception}
use plasmoid.Registry.State.{ParticleRegistry}
use plasmoid.Registry.Exit.{exit_now}

-- A value of a component's `result` type.
pub data ResultVal (Val : Type 0) : Type 0 where
  ok_val : ResultVal Val
  err_val : Option Val → ResultVal Val

-- The types and values of parameters: which type is the string type, its values, and the values
-- that wasm-wave reads.
pub record Wave (Ty Val : Type 0) : Type 0 where
  pub is_string : Ty → Bool
  pub string_val : Text → Val
  pub from_str : Ty → Text → Option Val

-- Which values are results, and the text of a value in a message.
pub record Values (Val : Type 0) : Type 0 where
  pub as_result : Val → Option (ResultVal Val)
  pub message_of : Val → String

pub data ArgsResult (Val : Type 0) : Type 0 where
  args : List Val → ArgsResult Val
  no_argument unparsable : ArgsResult Val
  wrong_count : (expected got : ℕ) → ArgsResult Val

-- `char::is_whitespace`
abbrev pub is_whitespace : ℕ → Bool
is_whitespace c =
    leb 9 c && leb c 13
    || (c == 32
        || (c == 133
            || (c == 160
                || (c == 5760
                    || (leb 8192 c && leb c 8202
                        || (c == 8232
                            || (c == 8233 || (c == 8239 || (c == 8287 || c == 12288)))))))))

unfoldable pub trim_start : Text → Text
trim_start [] = []
trim_start (c ∷ cs) = let rest = trim_start cs in if is_whitespace c then rest else c ∷ cs

unfoldable pub trim : Text → Text
unfolding trim_start
trim s = reverse (trim_start (reverse (trim_start s)))

-- `split_once(sep)`: at the first separator.
unfoldable pub split_once : ℕ → Text → Option (Text × Text)
split_once sep [] = none
split_once sep (c ∷ cs) =
    let rest = split_once sep cs in
    if c == sep
    then some ([], cs)
    else (elim rest [ none ↦ none | some (before, after) ↦ some (c ∷ before, after) ])

abbrev pub pieces : (Text → List Text) → Text → Option (Text × Text) → List Text
pieces go_on s none = s ∷ []
pieces go_on s (some (before, after)) = before ∷ go_on after

-- `splitn(n, sep)`: at most so many pieces, the last with what is left.
unfoldable pub splitn : ℕ → ℕ → Text → List Text
unfolding split_once
splitn zero sep s = []
splitn (suc zero) sep s = s ∷ []
splitn (suc (suc n)) sep s = pieces (splitn (suc n) sep) s (split_once sep s)

module _ {Val : Type 0} where
  abbrev pub read_one : Option Val → ArgsResult Val
  read_one none = unparsable
  read_one (some v) = args (v ∷ [])

  abbrev pub put_first : Option Val → ArgsResult Val → ArgsResult Val
  put_first none rest = unparsable
  put_first (some v) (args vs) = args (v ∷ vs)
  put_first (some v) rest = rest

module _ {Ty Val : Type 0} ⦃wave : Wave Ty Val⦄ where
  abbrev pub parse_single : Text → Ty → ArgsResult Val
  parse_single [] ty = no_argument
  parse_single (c ∷ cs) ty =
      if wave.is_string ty
      then args (wave.string_val (c ∷ cs) ∷ [])
      else read_one (wave.from_str ty (c ∷ cs))

  -- The loop over `parts.iter().zip(param_types.iter())`.
  unfoldable pub parse_each : List Text → List Ty → ArgsResult Val
  unfolding trim
  parse_each [] tys = args []
  parse_each (part ∷ parts) [] = args []
  parse_each (part ∷ parts) (ty ∷ tys) =
      put_first (wave.from_str ty (trim part)) (parse_each parts tys)

  abbrev pub parse_parts : List Text → List Ty → ArgsResult Val
  parse_parts parts param_types =
      if length parts == length param_types
      then parse_each parts param_types
      else wrong_count (length param_types) (length parts)

  unfoldable pub parse_wave_args : Text → List Ty → ArgsResult Val
  unfolding splitn parse_each
  parse_wave_args init_args [] = args []
  parse_wave_args init_args (ty ∷ []) = parse_single init_args ty
  parse_wave_args init_args (ty ∷ next ∷ tys) =
      parse_parts (splitn (length (ty ∷ next ∷ tys)) b',' init_args) (ty ∷ next ∷ tys)

module _ {Val : Type 0} ⦃values : Values Val⦄ where
  abbrev pub result_reason : Option (ResultVal Val) → ExitReason
  result_reason none = normal
  result_reason (some ok_val) = normal
  result_reason (some (err_val (some v))) = exception ("start failed: " ++ values.message_of v)
  result_reason (some (err_val none)) = exception "start failed (no error details)"

  abbrev pub interpret_start_result : List Val → ExitReason
  interpret_start_result [] = normal
  interpret_start_result (v ∷ more) = result_reason (values.as_result v)

-- How the engine's call of the start function ended.
pub data CallOutcome (Val : Type 0) : Type 0 where
  returned : List Val → CallOutcome Val
  trapped : String → CallOutcome Val

module _ {Val : Type 0} ⦃values : Values Val⦄ where
  abbrev pub end_reason : CallOutcome Val → ExitReason
  end_reason (returned results) = interpret_start_result results
  end_reason (trapped e) = exception ("start trap: " ++ e)

  -- The task that `start_particle` spawns, once the call has ended.
  unfoldable pub finish_start : Pid → CallOutcome Val → ParticleRegistry → Option ParticleRegistry
  unfolding exit_now
  finish_start pid outcome r = exit_now pid (end_reason outcome) r
