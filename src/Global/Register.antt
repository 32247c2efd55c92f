-- ===== src/Global/Register.antt =====
-- src/global.rs: `register` and `unregister`, the operations that particles reach.
pub mod Spares
use plasmoid.Prelude.{
  ℕ, zero, suc, String, Bool, true, false, Option, none, some, List, [], ◌∷◌, ◌++◌, leb,
  if◌then◌else◌, ◌==◌, nat_eq,
}
use plasmoid.Pid.{Pid, EndpointId}
use plasmoid.Global.{GlobalNames, release, name_of, give_up}
use plasmoid.Global.Claim.{
  Tables, Fate, answered, ask, put, Phase, ClaimResult, claimed, is_taken, unsettled, finished,
  try_claim,
}

abbrev pub insert_sorted : EndpointId → List EndpointId → List EndpointId
insert_sorted n [] = n ∷ []
insert_sorted n (m ∷ ms) = if leb n m then n ∷ m ∷ ms else m ∷ insert_sorted n ms

-- `members.sort()`
abbrev pub sort : List EndpointId → List EndpointId
sort [] = []
sort (n ∷ ns) = insert_sorted n (sort ns)

-- `Result<(), ClaimError>`; `running` says that the fates ran out before an attempt was over.
pub data RegisterResult : Type 0 where
  registered : RegisterResult
  name_taken : Pid → RegisterResult
  already_named : String → RegisterResult
  not_settled : RegisterResult
  running : RegisterResult

-- `CLAIM_RETRIES`
abbrev pub claim_retries : ℕ
claim_retries = 3

abbrev pub after_attempt : Phase → RegisterResult → RegisterResult
after_attempt (finished claimed) again = registered
after_attempt (finished (is_taken p)) again = name_taken p
after_attempt (finished unsettled) again = again
after_attempt _ again = running

abbrev pub is_again : Phase → Bool
is_again (finished unsettled) = true
is_again _ = false

-- The attempts: for each the members known then, but for `me`, and the fates of its requests.
unfoldable pub attempt :
    ℕ
    → List (List EndpointId × List Fate)
    → EndpointId
    → String
    → Pid
    → Tables
    → RegisterResult × Tables
unfolding try_claim
attempt zero trials me name pid w = (not_settled, w)
attempt (suc retries) [] me name pid w = (running, w)
attempt (suc retries) ((nodes, fates) ∷ trials) me name pid w =
    let done = try_claim fates me name pid (sort (nodes ++ me ∷ [])) w in
    let rest = attempt retries trials me name pid done.1 in
    (after_attempt done.0 rest.0, if is_again done.0 then rest.1 else done.1)

unfoldable pub register :
    Bool
    → List (List EndpointId × List Fate)
    → EndpointId
    → String
    → Pid
    → Tables
    → RegisterResult × Tables
unfolding name_of attempt
register settled trials me name pid w =
    let fresh = attempt claim_retries trials me name pid w in
    if settled
    then elim (name_of pid (w me)) [ some n ↦ (already_named n, w) | none ↦ fresh ]
    else (not_settled, w)

-- The requests to release a name everywhere, one to each member.
unfoldable pub release_at : List (EndpointId × Fate) → EndpointId → String → Pid → Tables → Tables
unfolding ask
release_at [] me name pid w = w
release_at ((node, fate) ∷ ns) me name pid w =
    release_at ns me name pid (ask fate me node (release name pid) w).1

unfoldable pub unregister : List (EndpointId × Fate) → EndpointId → String → Pid → Tables → Tables
unfolding give_up release_at
unregister nodes me name pid w =
    let own = give_up name pid (w me) in
    let after = put me own.1 w in if own.0 then release_at nodes me name pid after else after
