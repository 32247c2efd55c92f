-- ===== src/Global/Claim/Reads.antt =====
-- What the table of src/global.rs says of one name.
use plasmoid.Prelude.{String, Bool, true, false, Option, none, some, nat_eq, string_eq}
use plasmoid.Prelude.Map.{get}
use plasmoid.Pid.{EndpointId}
use plasmoid.Global.{GlobalNames}

module _ (name : String) where
  abbrev pub lock_of : GlobalNames → Option EndpointId
  lock_of g = get name g.locks

  abbrev pub is_named : GlobalNames → Bool
  is_named g = elim (get name g.names) [ none ↦ false | some pid ↦ true ]
