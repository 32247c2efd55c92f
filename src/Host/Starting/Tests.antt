-- ===== src/Host/Starting/Tests.antt =====
-- Runs of the start functions of src/runtime/invoke.rs, over values that are texts.
use plasmoid.Prelude.{◌≡◌, refl, Bool, true, false, Option, none, some, [], ◌∷◌, ◌==◌}
use plasmoid.Prelude.Map.{get, contains_key}
use plasmoid.Pid.{pid_eq}
use plasmoid.Pid.Key.{Text}
use plasmoid.Registry.Cascade.{Returns}
use plasmoid.Registry.Symmetry.{is_alive}
use plasmoid.Registry.Spread.{Spreads}
use plasmoid.Protocol.Tests.{registry_of, pid_at}
use plasmoid.Host.Starting.{
  Wave, Values, args, no_argument, wrong_count, err_val, CallOutcome, trapped, parse_wave_args,
  finish_start,
}
use plasmoid.Host.Starting.Ends.{finish_start-ends}

data Ty : Type 0 where
  text number : Ty

abbrev is_text : Ty → Bool
is_text text = true
is_text number = false

-- A number is one digit.
abbrev read_value : Ty → Text → Option Text
read_value text s = some s
read_value number (d ∷ []) = some (d ∷ [])
read_value number s = none

instance abbrev small_wave : Wave Ty Text
small_wave = record { is_string = is_text; string_val = λ s. s; from_str = read_value }

instance abbrev small_values : Values Text
small_values = record { as_result = λ v. some (err_val (some v)); message_of = λ v. "bad" }

-- `1, a,b` for a number and a text.
abbrev two_args : Text
two_args = b'1' ∷ b',' ∷ b' ' ∷ b'a' ∷ b',' ∷ b'b' ∷ []

both_read :
    parse_wave_args {Val = Text} two_args (number ∷ text ∷ [])
    ≡ args ((b'1' ∷ []) ∷ (b'a' ∷ b',' ∷ b'b' ∷ []) ∷ [])
unfolding parse_wave_args
both_read = refl

too_few : parse_wave_args {Val = Text} (b'1' ∷ []) (number ∷ text ∷ []) ≡ wrong_count 2 1
unfolding parse_wave_args
too_few = refl

not_given : parse_wave_args {Val = Text} [] (text ∷ []) ≡ no_argument
unfolding parse_wave_args
not_given = refl

abbrev fault : CallOutcome Text
fault = trapped "out of bounds"

finish_start-ends_example :
    Returns
      (λ r'.
        (is_alive (pid_at 7 1) r' ≡ false)
        × (true ≡ false
            → (pid_at 7 1 == pid_at 7 2) ≡ false
            → is_alive (pid_at 7 2) r' ≡ is_alive (pid_at 7 2) (registry_of 7))
        × (true ≡ true
            → Spreads (registry_of 7) (pid_at 7 1) (pid_at 7 2)
            → is_alive (pid_at 7 2) r' ≡ false))
      (registry_of 7)
      (finish_start (pid_at 7 1) fault (registry_of 7))
unfolding registry_of contains_key get
finish_start-ends_example = finish_start-ends (pid_at 7 1) (pid_at 7 2) fault (registry_of 7) refl
