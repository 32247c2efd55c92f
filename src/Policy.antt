-- ===== src/Policy.antt =====
-- src/policy.rs: the set of the capabilities that a component is given, by their names.
use plasmoid.Prelude.{String, string_eq, Bool, List, [], ◌∷◌}
use plasmoid.Prelude.Set.{contains, insert}
use plasmoid.Registry.State.{PolicySet}

abbrev pub empty : PolicySet
empty = []

unfoldable pub with_capabilities : List String → PolicySet
unfolding insert
with_capabilities [] = empty
with_capabilities (cap ∷ caps) = insert cap (with_capabilities caps)

abbrev pub all : PolicySet
unfolding with_capabilities
all = with_capabilities (
    "logging" ∷ "particle:send" ∷ "particle:spawn" ∷ "particle:link" ∷ "particle:monitor"
    ∷ "particle:register" ∷ "particle:lookup" ∷ [])

unfoldable pub allows : PolicySet → String → Bool
unfolding contains
allows caps capability = contains capability caps
