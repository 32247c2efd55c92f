-- ===== src/Global/Merge/Table.antt =====
-- The tables of src/global.rs hold each name once.
use plasmoid.Prelude.{
  ◌≡◌, String, Option, none, some, [], ◌∷◌, arith, ◌==◌, Bool-cases, Option-cases, inl, inr,
  string_eq, nat_eq, beq_refl,
}
use plasmoid.Prelude.Map.{Map, get, insert, remove, contains_key-remove}
use plasmoid.Pid.{Pid, pid_eq, pid_lt, EndpointId}
use plasmoid.Global.{
  GlobalNames, GlobalRequest, lock, unlock, commit, release, sync, apply, take, untake, write,
  give_up,
}
use plasmoid.Global.Merge.{Merging, settle, resolve, merge_names, merge}
use plasmoid.Global.Merge.Verdict.{IsTable}

remove-IsTable : (name : String) (m : Map String Pid) → IsTable m → IsTable (remove name m)
unfolding remove
remove-IsTable name [] h = tt
remove-IsTable name ((n, p) ∷ m) h = elim (Bool-cases (n == name)) [
  | inl same ↦ rw same (remove-IsTable name m h.1)
  | inr other ↦
      rw other (ground (arith, contains_key-remove name n m, h.0), remove-IsTable name m h.1)
]

insert-IsTable :
    (name : String) (p : Pid) (m : Map String Pid) → IsTable m → IsTable (insert name p m)
unfolding insert
insert-IsTable name p m h =
    (ground (arith, contains_key-remove name name m, beq_refl name), remove-IsTable name m h)

resolve-IsTable :
    (me : EndpointId) (name : String) (o : Option Pid) (p : Pid) (c : Merging)
    → IsTable c.1
    → IsTable (resolve me name o p c).1
unfolding resolve settle
resolve-IsTable me name none p c h = insert-IsTable name p c.1 h
resolve-IsTable me name (some q) p c h = elim (Bool-cases (q == p)) [
  | inl same ↦ rw same h
  | inr other ↦ elim (Bool-cases (pid_lt q p)) [
    | inl less ↦ rw (other, less) (insert-IsTable name q c.1 h)
    | inr more ↦ rw (other, more) (insert-IsTable name p c.1 h)
  ]
]

pub merge-IsTable :
    (theirs : Map String Pid) (me : EndpointId) (g : GlobalNames)
    → IsTable g.names
    → IsTable (merge theirs me g).1.names
unfolding merge merge_names
merge-IsTable theirs me g h = all theirs ([], g.names) h
  where
    all : (es : Map String Pid) (c : Merging) → IsTable c.1 → IsTable (merge_names me es c).1
    all [] c k = k
    all ((name, p) ∷ es) c k = all es _ (resolve-IsTable me name (get name c.1) p c k)

take-names :
    (name : String) (holder : EndpointId) (g : GlobalNames) → (take name holder g).1.names ≡ g.names
unfolding take
take-names name holder g = ground arith

untake-names :
    (name : String) (holder : EndpointId) (g : GlobalNames) → (untake name holder g).names ≡ g.names
unfolding untake
untake-names name holder g = ground arith

give_up-IsTable :
    (name : String) (p : Pid) (g : GlobalNames)
    → IsTable g.names
    → IsTable (give_up name p g).1.names
unfolding give_up
give_up-IsTable name p g h = elim (Option-cases (get name g.names)) [
  | inl e ↦ rw e h
  | inr (q, e) ↦ elim (Bool-cases (q == p)) [
    | inl own ↦ rw (e, own) (remove-IsTable name g.names h)
    | inr other ↦ rw (e, other) h
  ]
]

-- Whatever request a node gets, and whatever table it merges, its table goes on holding each name
-- once.
pub apply-IsTable :
    (req : GlobalRequest) (theirs : Map String Pid) (me : EndpointId) (g : GlobalNames)
    → IsTable g.names
    → IsTable (apply req g).1.names × IsTable (merge theirs me g).1.names
unfolding apply write
apply-IsTable req theirs me g h = (one req, merge-IsTable theirs me g h)
  where
    one : (q : GlobalRequest) → IsTable (apply q g).1.names
    one (lock name holder) = rw (take-names name holder g) h
    one (commit name p holder) = insert-IsTable name p g.names h
    one (unlock name holder) = rw (untake-names name holder g) h
    one (release name p) = give_up-IsTable name p g h
    one (sync m) = h
