-- ===== src/Global/Claim/Ends.antt =====
-- A claim in src/global.rs ends, whatever the network and the other nodes do.
use plasmoid.Prelude.{
  ℕ, suc, ◌+◌, ◌*◌, ◌≤◌, ◌<◌, ◌≡◌, refl, String, Option, none, some, List, [], ◌∷◌, arith, length,
  length-append,
}
use plasmoid.Pid.{Pid, EndpointId}
use plasmoid.Global.{GlobalResponse, locked, busy, taken, ok, names_are, lock}
use plasmoid.Global.Claim.{
  Tables, Fate, ask, Phase, ClaimResult, locking, committing, unlocking, finished, step_claim,
  run_claim, after_lock, try_claim,
}

-- How many steps a claim has left, at most.
abbrev pub steps_left : Phase → ℕ
steps_left (locking todo held) = 3 * length todo + 2 * length held + 3
steps_left (committing todo held) = length todo + length held + 2
steps_left (unlocking todo r) = length todo + 1
steps_left (finished r) = 0

after_lock-steps_left :
    (r : Option GlobalResponse) (node : EndpointId) (todo held : List EndpointId)
    → steps_left (after_lock r node todo held) < steps_left (locking (node ∷ todo) held)
after_lock-steps_left none node todo held = omega arith
after_lock-steps_left (some locked) node todo held = omega (arith, length-append held (node ∷ []))
after_lock-steps_left (some busy) node todo held = omega arith
after_lock-steps_left (some (taken p)) node todo held = omega arith
after_lock-steps_left (some ok) node todo held = omega arith
after_lock-steps_left (some (names_are m)) node todo held = omega arith

module _ (me : EndpointId) (name : String) (pid : Pid) where
  step_claim-steps_left :
      (fate : Fate) (phase : Phase) (w : Tables) (k : ℕ)
      → steps_left phase ≤ suc k
      → steps_left (step_claim fate me name pid phase w).0 ≤ k
  unfolding step_claim
  step_claim-steps_left fate (locking [] held) w k h = omega arith
  step_claim-steps_left fate (locking (node ∷ todo) held) w k h =
      omega (arith, after_lock-steps_left (ask fate me node (lock name me) w).0 node todo held)
  step_claim-steps_left fate (committing [] held) w k h = omega arith
  step_claim-steps_left fate (committing (node ∷ todo) held) w k h = omega arith
  step_claim-steps_left fate (unlocking [] r) w k h = omega arith
  step_claim-steps_left fate (unlocking (node ∷ todo) r) w k h = omega arith
  step_claim-steps_left fate (finished r) w k h = omega arith

  run_claim-ends :
      (fates : List Fate) (phase : Phase) (w : Tables)
      → steps_left phase ≤ length fates
      → (r : ClaimResult) × ((run_claim fates me name pid phase w).0 ≡ finished r)
  unfolding run_claim
  run_claim-ends [] (locking todo held) w h = absurd (omega arith)
  run_claim-ends [] (committing todo held) w h = absurd (omega arith)
  run_claim-ends [] (unlocking todo r) w h = absurd (omega arith)
  run_claim-ends [] (finished r) w h = (r, refl)
  run_claim-ends (fate ∷ fates) phase w h =
      run_claim-ends fates (step_claim fate me name pid phase w).0
        (step_claim fate me name pid phase w).1
        (step_claim-steps_left fate phase w (length fates) h)

  -- A claim takes at most three requests for each member and three steps between them: with as
  -- many answers or failures of the network it has finished.
  pub try_claim-ends :
      (fates : List Fate) (members : List EndpointId) (w : Tables)
      → 3 * length members + 3 ≤ length fates
      → (r : ClaimResult) × ((try_claim fates me name pid members w).0 ≡ finished r)
  unfolding try_claim
  try_claim-ends fates members w h = run_claim-ends fates (locking members []) w (omega arith)
