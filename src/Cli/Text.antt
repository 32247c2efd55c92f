-- ===== src/Cli/Text.antt =====
-- `str::ends_with`, of the standard library, which src/main.rs asks of an argument.
use Prim.Native.String.{String, [], ◌∷◌}
use plasmoid.Prelude.{string_eq, Bool, true, if◌then◌else◌, ◌==◌}

unfoldable pub ends_with : String → String → Bool
ends_with suffix [] = suffix == ""
ends_with suffix (c ∷ s) = if (c ∷ s) == suffix then true else ends_with suffix s
