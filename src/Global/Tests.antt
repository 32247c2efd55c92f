-- ===== src/Global/Tests.antt =====
-- Runs of src/global.rs.
use plasmoid.Prelude.{◌≡◌, refl, true, false, ◌&&◌, List, [], ◌∷◌, arith, string_eq, nat_eq}
use plasmoid.Prelude.Map.{get, insert, remove, contains_key}
use plasmoid.Prelude.Set
use plasmoid.Pid.{Pid, EndpointId, pid_eq}
use plasmoid.Global.{GlobalNames, take, untake, write}
use plasmoid.Global.Claim.{
  Tables, Fate, lost, unanswered, answered, locking, finished, ClaimResult, try_claim,
}
use plasmoid.Global.Claim.Split.{SplitPhase, at, split_step}
use plasmoid.Global.Claim.OneOwner.{
  Rivals, Turn, first_turn, second_turn, run, has_won, rivals-one_winner,
}
use plasmoid.Global.Claim.Ends.{try_claim-ends}
use plasmoid.Global.Register.{register, registered}
use plasmoid.Global.Merge.{merge}
use plasmoid.Global.Merge.Verdict.{join, named, verdict, merge-verdict, merge-agrees}

abbrev low : Pid
low = record { node = 1; seq = 5 }

abbrev high : Pid
high = record { node = 2; seq = 3 }

abbrev fresh : Tables
fresh = λ n. record { me = n; names = []; locks = []; merges = 0 }

abbrev claiming : List EndpointId → SplitPhase
claiming members = at (locking members [])

-- Two particles of one node claim a name at once: the lock is the node's, so both get it.
abbrev same_node : Rivals
same_node =
    run "boss" low (record { node = 1; seq = 6 }) 1 1
      (first_turn answered
        ∷ second_turn answered
        ∷ first_turn answered
        ∷ second_turn answered
        ∷ first_turn answered
        ∷ second_turn answered
        ∷ [])
      (record { first = claiming (1 ∷ []); second = claiming (1 ∷ []); tables = fresh })

same_node_both_win : (has_won same_node.first && has_won same_node.second) ≡ true
unfolding split_step take untake write get insert remove
same_node_both_win = refl

-- The second claimant finds the name free at the node that both ask first, which is the first
-- claimant's; before it locks it there, the first claims the name, and its commit to the second's
-- node is lost: both get it.
abbrev stale_check : Rivals
stale_check =
    run "boss" low high 1 2
      (second_turn answered
        ∷ first_turn answered
        ∷ first_turn answered
        ∷ first_turn answered
        ∷ first_turn answered
        ∷ first_turn answered
        ∷ first_turn answered
        ∷ first_turn lost
        ∷ first_turn answered
        ∷ first_turn answered
        ∷ first_turn answered
        ∷ second_turn answered
        ∷ second_turn answered
        ∷ second_turn answered
        ∷ second_turn answered
        ∷ [])
      (record { first = claiming (1 ∷ 2 ∷ []); second = claiming (1 ∷ 2 ∷ []); tables = fresh })

stale_check_both_win : (has_won stale_check.first && has_won stale_check.second) ≡ true
unfolding split_step take untake write get insert remove
stale_check_both_win = refl

claim_commits :
    (register true
      ((
        2 ∷ [],
        answered ∷ answered ∷ answered ∷ answered ∷ answered ∷ answered ∷ answered ∷ answered
            ∷ answered ∷ [],
      )
        ∷ [])
      1
      "boss"
      low
      fresh).0
    ≡ registered
unfolding register take untake write get insert remove
claim_commits = refl

abbrev turns : List Turn
turns = first_turn answered ∷ second_turn unanswered ∷ second_turn lost ∷ first_turn answered ∷ []

rivals-one_winner_example :
    (has_won
        (run "boss" low high 1 2 turns (record {
          first = claiming (0 ∷ 1 ∷ 2 ∷ []);
          second = claiming (0 ∷ 1 ∷ 2 ∷ []);
          tables = fresh;
        })).first
      && has_won
          (run "boss" low high 1 2 turns (record {
            first = claiming (0 ∷ 1 ∷ 2 ∷ []);
            second = claiming (0 ∷ 1 ∷ 2 ∷ []);
            tables = fresh;
          })).second)
    ≡ false
unfolding Set.contains
rivals-one_winner_example =
    rivals-one_winner "boss" 0 low high 1 2 refl turns (1 ∷ 2 ∷ []) (1 ∷ 2 ∷ []) fresh refl refl
      refl refl

abbrev six : List Fate
six = answered ∷ answered ∷ lost ∷ answered ∷ unanswered ∷ answered ∷ []

try_claim-ends_example :
    (r : ClaimResult) × ((try_claim six 1 "boss" low (1 ∷ []) fresh).0 ≡ finished r)
try_claim-ends_example = try_claim-ends 1 "boss" low six (1 ∷ []) fresh (omega arith)

abbrev of_low : GlobalNames
of_low = record { me = 1; names = ("boss", low) ∷ ("clerk", low) ∷ []; locks = []; merges = 0 }

abbrev of_high : GlobalNames
of_high = record { me = 2; names = ("boss", high) ∷ []; locks = []; merges = 0 }

merge-verdict_example :
    named 2 "boss" (merge of_low.names 2 of_high).0
    ≡ verdict 2 "boss" (get "boss" of_high.names) (get "boss" of_low.names)
unfolding contains_key
merge-verdict_example = merge-verdict 2 "boss" of_low.names of_high (refl, (refl, tt))

merge-agrees_example :
    (get "boss" (merge of_high.names 1 of_low).1.names
      ≡ get "boss" (merge of_low.names 2 of_high).1.names)
    × (get "boss" (merge of_high.names 1 of_low).1.names
        ≡ join (get "boss" of_low.names) (get "boss" of_high.names))
unfolding contains_key
merge-agrees_example = merge-agrees "boss" of_low of_high (refl, (refl, tt)) (refl, tt)
