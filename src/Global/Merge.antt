-- ===== src/Global/Merge.antt =====
-- src/global.rs: `merge`, `answer_sync` and `sync_with`: two tables become one, and whom it kills.
pub mod Verdict
pub mod Table
use plasmoid.Prelude.{
  String, Bool, Option, none, some, List, [], ◌∷◌, ◌++◌, if◌then◌else◌, ◌==◌, string_eq, nat_eq,
}
use plasmoid.Prelude.Map.{Map, get, insert}
use plasmoid.Pid.{Pid, pid_eq, pid_lt, EndpointId, is_local_to}
use plasmoid.Message.{kill}
use plasmoid.Registry.State.{ParticleRegistry}
use plasmoid.Registry.Exit.{apply_directed_exit}
use plasmoid.Global.{GlobalNames, GlobalResponse, names_are, snapshot, merge_begin, merge_end}

-- A name, its loser and its winner.
abbrev pub Loser : Type 0
Loser = String × Pid × Pid

-- What a merge has come to: the losers of this node so far, and the table.
abbrev pub Merging : Type 0
Merging = List Loser × Map String Pid

unfoldable pub settle : EndpointId → String → Pid → Pid → Merging → Merging
unfolding is_local_to
settle me name winner loser c = (
  if is_local_to loser me then c.0 ++ (name, loser, winner) ∷ [] else c.0,
  insert name winner c.1,
)

-- One name of the other table, from what this table has for it.
unfoldable pub resolve : EndpointId → String → Option Pid → Pid → Merging → Merging
unfolding settle pid_lt
resolve me name none theirs c = (c.0, insert name theirs c.1)
resolve me name (some ours) theirs c =
    if ours == theirs
    then c
    else (if pid_lt ours theirs then settle me name ours theirs c else settle me name theirs ours c)

unfoldable pub merge_names : EndpointId → Map String Pid → Merging → Merging
unfolding resolve
merge_names me [] c = c
merge_names me ((name, theirs) ∷ es) c = merge_names me es (resolve me name (get name c.1) theirs c)

-- `merge`: the losers that live on this node, and the table after.
unfoldable pub merge : Map String Pid → EndpointId → GlobalNames → List Loser × GlobalNames
unfolding merge_names
merge theirs me g =
    let done = merge_names me theirs ([], g.names) in (done.0, record g { names = done.1 })

-- The kills, each to its end.
unfoldable pub kill_losers : List Loser → ParticleRegistry → Option ParticleRegistry
unfolding apply_directed_exit
kill_losers [] r = some r
kill_losers ((name, loser, winner) ∷ ls) r = elim (apply_directed_exit loser winner kill r) [
  | none ↦ none
  | some r' ↦ kill_losers ls r'
]

-- `answer_sync`: the reply is the table before the merge.
unfoldable pub answer_sync :
    Map String Pid
    → GlobalNames
    → ParticleRegistry
    → GlobalResponse × GlobalNames × Option ParticleRegistry
unfolding merge kill_losers merge_begin merge_end snapshot
answer_sync theirs g r =
    let done = merge theirs g.me (merge_begin g) in
    (names_are (snapshot g), merge_end done.1, kill_losers done.0 r)

-- `sync_with`, from the peer's answer; anything but its names ends the merge.
unfoldable pub sync_with :
    Option GlobalResponse → GlobalNames → ParticleRegistry → GlobalNames × Option ParticleRegistry
unfolding merge kill_losers merge_begin merge_end
sync_with (some (names_are theirs)) g r =
    let done = merge theirs g.me (merge_begin g) in (merge_end done.1, kill_losers done.0 r)
sync_with _ g r = (merge_end (merge_begin g), some r)
