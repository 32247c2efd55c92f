-- ===== src/Global.antt =====
-- src/global.rs: the table of cluster-wide names that each node holds, and its locks; the requests
-- and replies are those of src/wire.rs.
-- The handle's endpoint and links are outside. Each method holds a table's lock to its end, but for
-- `lock`, which holds two one after the other: `take` is a run of it with no other request to the
-- node between the two, and Claim.Split has them apart.
pub mod Claim
pub mod Merge
pub mod Register
mod Tests
use plasmoid.Prelude.{
  ℕ, ◌+◌, ◌-◌, String, Bool, true, false, Option, none, some, List, [], ◌∷◌, if◌then◌else◌, ◌==◌,
  map, find?, string_eq, nat_eq,
}
use plasmoid.Prelude.Map.{Map, get, insert, remove}
use plasmoid.Pid.{Pid, pid_eq, EndpointId}

pub data GlobalRequest : Type 0 where
  lock : (name : String) (holder : EndpointId) → GlobalRequest
  commit : (name : String) (pid : Pid) (holder : EndpointId) → GlobalRequest
  unlock : (name : String) (holder : EndpointId) → GlobalRequest
  release : (name : String) (pid : Pid) → GlobalRequest
  sync : (names : Map String Pid) → GlobalRequest

pub data GlobalResponse : Type 0 where
  locked busy : GlobalResponse
  taken : Pid → GlobalResponse
  ok : GlobalResponse
  names_are : Map String Pid → GlobalResponse

-- `merges` counts the merges that are under way.
pub record GlobalNames : Type 0 where
  pub me : EndpointId
  pub names : Map String Pid
  pub locks : Map String EndpointId
  pub merges : ℕ

-- `GlobalNames::new`
unfoldable pub new : EndpointId → GlobalNames
new me = record { me = me; names = []; locks = []; merges = 0 }

-- The lock of a name that is free, from what holds it now.
abbrev pub take_lock :
    Option EndpointId → String → EndpointId → GlobalNames → GlobalResponse × GlobalNames
take_lock none name holder g = (locked, record g { locks = insert name holder g.locks })
take_lock (some h) name holder g =
    if h == holder then (locked, record g { locks = insert name holder g.locks }) else (busy, g)

abbrev pub lock_unless_taken :
    Option Pid → String → EndpointId → GlobalNames → GlobalResponse × GlobalNames
lock_unless_taken none name holder g = take_lock (get name g.locks) name holder g
lock_unless_taken (some pid) name holder g = (taken pid, g)

unfoldable pub take : String → EndpointId → GlobalNames → GlobalResponse × GlobalNames
take name holder g = lock_unless_taken (get name g.names) name holder g

abbrev pub drop_lock : Option EndpointId → String → EndpointId → GlobalNames → GlobalNames
drop_lock none name holder g = g
drop_lock (some h) name holder g =
    if h == holder then record g { locks = remove name g.locks } else g

unfoldable pub untake : String → EndpointId → GlobalNames → GlobalNames
untake name holder g = drop_lock (get name g.locks) name holder g

unfoldable pub write : String → Pid → GlobalNames → GlobalNames
write name pid g = record g { names = insert name pid g.names }

abbrev pub give_up_held : Option Pid → String → Pid → GlobalNames → Bool × GlobalNames
give_up_held none name pid g = (false, g)
give_up_held (some owner) name pid g =
    if owner == pid then (true, record g { names = remove name g.names }) else (false, g)

unfoldable pub give_up : String → Pid → GlobalNames → Bool × GlobalNames
give_up name pid g = give_up_held (get name g.names) name pid g

unfoldable pub snapshot : GlobalNames → Map String Pid
snapshot g = g.names

unfoldable pub peek : String → GlobalNames → Option Pid
peek name g = get name g.names

-- The first name of the pid, if it has one.
unfoldable pub name_of : Pid → GlobalNames → Option String
name_of pid g = elim (find? (λ e. e.1 == pid) g.names) [ none ↦ none | some e ↦ some e.0 ]

unfoldable pub merge_begin : GlobalNames → GlobalNames
merge_begin g = record g { merges = g.merges + 1 }

unfoldable pub merge_end : GlobalNames → GlobalNames
merge_end g = record g { merges = g.merges - 1 }

-- Whether the merges settled in time is the clock's to say.
pub data Lookup : Type 0 where
  found : Option Pid → Lookup
  unsettled : Lookup

unfoldable pub lookup : Bool → String → GlobalNames → Lookup
unfolding peek
lookup settled name g = if settled then found (peek name g) else unsettled

-- `apply`: one protocol step on this table.
unfoldable pub apply : GlobalRequest → GlobalNames → GlobalResponse × GlobalNames
unfolding take untake write give_up snapshot
apply (lock name holder) g = take name holder g
apply (unlock name holder) g = (ok, untake name holder g)
apply (commit name pid holder) g = (ok, write name pid g)
apply (release name pid) g = (ok, (give_up name pid g).1)
apply (sync names) g = (names_are (snapshot g), g)
