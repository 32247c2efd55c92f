-- ===== src/Host/Globals.antt =====
-- src/runtime/invoke.rs: the cluster's names of src/global.rs, as a particle claims and asks for them.
-- The other nodes and the network are the arguments that `register` and `unregister` have.
use plasmoid.Prelude.{String, Bool, none, List, if◌then◌else◌}
use plasmoid.Pid.{Pid, EndpointId}
use plasmoid.Global
use plasmoid.Global.{GlobalNames, Lookup}
use plasmoid.Global.Claim.{Tables, Fate}
use plasmoid.Global.Register
use plasmoid.Global.Register.{
  RegisterResult, registered, name_taken, already_named, not_settled, running,
}
use plasmoid.Host.{HostState}

-- The node's parts for global names: with the cluster, or none of them.
pub record Distribution : Type 0 where
  pub me : EndpointId
  pub has_global : Bool
  pub has_cluster : Bool

-- `ClaimError` of the interface, or none; `in_progress` says that the claim is not over.
pub data ClaimAnswer : Type 0 where
  claimed : ClaimAnswer
  taken_by : Pid → ClaimAnswer
  has_name : String → ClaimAnswer
  unsettled : ClaimAnswer
  in_progress : ClaimAnswer

abbrev pub claim_answer : RegisterResult → ClaimAnswer
claim_answer registered = claimed
claim_answer (name_taken p) = taken_by p
claim_answer (already_named n) = has_name n
claim_answer not_settled = unsettled
claim_answer running = in_progress

abbrev pub is_distributed : Distribution → Bool
is_distributed d = if d.has_global then d.has_cluster else d.has_global

unfoldable pub global_register :
    Distribution
    → Bool
    → List (List EndpointId × List Fate)
    → String
    → HostState
    → Tables
    → ClaimAnswer × Tables
unfolding Register.register
global_register d settled trials name h w =
    let (result, after) = Register.register settled trials d.me name h.pid w in
    if is_distributed d then (claim_answer result, after) else (claimed, w)

unfoldable pub global_unregister :
    Distribution → List (EndpointId × Fate) → String → HostState → Tables → Tables
unfolding Register.unregister
global_unregister d nodes name h w =
    if is_distributed d then Register.unregister nodes d.me name h.pid w else w

unfoldable pub global_lookup : Distribution → Bool → String → Tables → Lookup
unfolding Global.lookup
global_lookup d settled name w =
    if d.has_global then Global.lookup settled name (w d.me) else Global.found none
