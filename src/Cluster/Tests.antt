-- ===== src/Cluster/Tests.antt =====
-- Runs of src/cluster.rs and src/partitions.rs, after the tests at their ends.
use plasmoid.Prelude.{ℕ, ◌+◌, ◌≡◌, refl, false, List, [], ◌∷◌, arith, nat_eq}
use plasmoid.Prelude.Map.{get}
use plasmoid.Prelude.Set
use plasmoid.Pid.{EndpointId}
use plasmoid.Cluster.{Cluster, learn}
use plasmoid.Cluster.History.{Event, learns, quarantines, checks}
use plasmoid.Cluster.Partitions.{Loss, loss_eq, Node, accept}
use plasmoid.Cluster.Cascade.{hear, accept-once}

abbrev trio : Cluster
trio = record { me = 1; members = 2 ∷ 3 ∷ []; quarantined = (4, 500) ∷ [] }

learn_refuses : (learn (1 ∷ 2 ∷ 4 ∷ 5 ∷ []) 100 trio).0 ≡ 5 ∷ []
unfolding learn get Set.insert Set.contains
learn_refuses = refl

abbrev five : EndpointId
five = 5

abbrev life : List (ℕ × Event)
life =
    (5, learns (1 ∷ 2 ∷ 3 ∷ []))
    ∷ (10, quarantines 2)
    ∷ (20, learns (2 ∷ []))
    ∷ (70000, checks 2)
    ∷ (1, learns (2 ∷ []))
    ∷ []

abbrev loss : Loss
loss = record { reporter = 2; lost = 3 }

abbrev node : Node
node = record { cluster = trio; partitions = record { me = 1; next_op = 1; seen = [] } }

accept-once_example :
    (accept loss 7 (100 + 60) (
      hear loss 7 100
        ((record { reporter = 3; lost = 2 }, (9, 30)) ∷ (loss, (7, 40)) ∷ [])
        (accept loss 7 100 node.partitions).1)).0
    ≡ false
unfolding accept get
accept-once_example =
    accept-once loss 7 100 ((record { reporter = 3; lost = 2 }, (9, 30)) ∷ (loss, (7, 40)) ∷ []) 7
      60 node.partitions refl (omega arith, (omega arith, tt)) (omega arith) (omega arith)
