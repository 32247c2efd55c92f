-- ===== src/Cluster.antt =====
-- src/cluster.rs: the nodes that this node is clustered with, and those that it refuses for now.
-- Times are milliseconds on this node's clock, an argument of what reads it.
pub mod Partitions
pub mod Roster
pub mod History
pub mod Cascade
mod Tests
use plasmoid.Prelude.{
  ℕ, ◌+◌, ◌*◌, Bool, true, false, not, Option, none, some, List, [], ◌∷◌, ltb, if◌then◌else◌, ◌==◌,
  nat_eq, filter,
}
use plasmoid.Prelude.Map.{Map, get, insert, remove}
use plasmoid.Prelude.Set
use plasmoid.Pid.{EndpointId}

-- `QUARANTINE`, a minute.
abbrev pub quarantine_ms : ℕ
quarantine_ms = 60 * 1000

pub record Cluster : Type 0 where
  pub me : EndpointId
  pub members : List EndpointId
  pub quarantined : Map EndpointId ℕ

-- `Cluster::new`
unfoldable pub new : EndpointId → Cluster
new me = record { me = me; members = []; quarantined = [] }

-- Whether the node was a member, and the cluster without it.
unfoldable pub quarantine : EndpointId → ℕ → Cluster → Bool × Cluster
quarantine node now c = (
  Set.contains node c.members,
  record c {
    quarantined = insert node (now + quarantine_ms) c.quarantined;
    members = Set.remove node c.members;
  },
)

abbrev pub expire : Option ℕ → EndpointId → ℕ → Cluster → Bool × Cluster
expire none node now c = (false, c)
expire (some until) node now c =
    if ltb now until
    then (true, c)
    else (false, record c { quarantined = remove node c.quarantined })

unfoldable pub is_quarantined : EndpointId → ℕ → Cluster → Bool × Cluster
is_quarantined node now c = expire (get node c.quarantined) node now c

unfoldable pub contains : EndpointId → Cluster → Bool
contains node c = Set.contains node c.members

-- One candidate: refused, or inserted and fresh if it was no member.
unfoldable pub learn_one : EndpointId → ℕ → Cluster → Bool × Cluster
unfolding is_quarantined
learn_one node now c =
    let checked = is_quarantined node now c in
    if checked.0 then (false, checked.1) else (
      not (Set.contains node checked.1.members),
      record checked.1 { members = Set.insert node checked.1.members },
    )

unfoldable pub learn_all : List EndpointId → ℕ → Cluster → List EndpointId × Cluster
unfolding learn_one
learn_all [] now c = ([], c)
learn_all (node ∷ ns) now c =
    let one = learn_one node now c in
    let rest = learn_all ns now one.1 in (if one.0 then node ∷ rest.0 else rest.0, rest.1)

unfoldable pub learn : List EndpointId → ℕ → Cluster → List EndpointId × Cluster
unfolding learn_all
learn nodes now c = learn_all (filter (λ n. not (n == c.me)) nodes) now c

unfoldable pub forget : EndpointId → Cluster → Bool × Cluster
forget node c = (Set.contains node c.members, record c { members = Set.remove node c.members })
