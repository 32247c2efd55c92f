-- ===== src/Global/Merge/Verdict.antt =====
-- What a merge of two tables in src/global.rs decides, for each name.
use plasmoid.Prelude.{
  ◌≡◌, refl, sym, ◌∙◌, String, true, false, Option, none, some, List, [], ◌∷◌, ◌++◌, arith,
  if◌then◌else◌, ◌==◌, string_eq, nat_eq, filter, append-nil, Bool-cases, inl, inr,
}
use plasmoid.Prelude.Map.{Map, get, contains_key, get-insert, contains_key-get}
use plasmoid.Pid.{Pid, pid_eq, pid_beq_iff, pid_lt, EndpointId, is_local_to}
use plasmoid.Global.{GlobalNames}
use plasmoid.Global.Merge.{Loser, Merging, settle, resolve, merge_names, merge}

-- A table holds each name once, as a hash map does.
abbrev pub IsTable : Map String Pid → Type 0
IsTable [] = Unit
IsTable ((n, p) ∷ es) = (contains_key n es ≡ false) × IsTable es

abbrev pub lower : Pid → Pid → Pid
lower a b = if pid_lt a b then a else b

-- Who holds a name when two tables have been merged.
abbrev pub join : Option Pid → Option Pid → Option Pid
join none b = b
join (some a) none = some a
join (some a) (some b) = some (lower a b)

pub pid_lt-total : (a b : Pid) → pid_lt a b ≡ false → pid_lt b a ≡ false → a ≡ b
unfolding pid_lt
pid_lt-total a b x y = ground arith

pid_lt-asym : (a b : Pid) → pid_lt a b ≡ true → pid_lt b a ≡ false
unfolding pid_lt
pid_lt-asym a b x = ground arith

join_comm : (a b : Option Pid) → join a b ≡ join b a
join_comm none none = refl
join_comm none (some b) = refl
join_comm (some a) none = refl
join_comm (some a) (some b) = ground (arith, pid_lt-total a b, pid_lt-asym a b)

lower_self : (a : Pid) → lower a a ≡ a
lower_self a = ground arith

get-resolve :
    (me : EndpointId) (name n : String) (o : Option Pid) (theirs : Pid) (c : Merging)
    → get name c.1 ≡ o
    → get n (resolve me name o theirs c).1 ≡ (if name == n then join o (some theirs) else get n c.1)
unfolding resolve settle
get-resolve me name n none theirs c e = get-insert name n theirs c.1
get-resolve me name n (some ours) theirs c e = ground (
  arith,
  get-insert name n ours c.1,
  get-insert name n theirs c.1,
  e,
  lower_self ours,
  pid_beq_iff ours theirs,
  string_eq.beq_iff name n,
)

join-none : (a : Option Pid) → join a none ≡ a
join-none none = refl
join-none (some a) = refl

module _ (me : EndpointId) (n : String) where
  get-absent :
      (name : String) (es : Map String Pid)
      → (name == n) ≡ true
      → contains_key name es ≡ false
      → get n es ≡ none
  get-absent name es same h =
      rw (← (string_eq.beq_iff name n).0 same) (ground (arith, contains_key-get name es, h))

  get-merge_names :
      (theirs : Map String Pid) (c : Merging)
      → IsTable theirs
      → get n (merge_names me theirs c).1 ≡ join (get n c.1) (get n theirs)
  unfolding merge_names get
  get-merge_names [] c h = sym (join-none (get n c.1))
  get-merge_names ((name, p) ∷ es) c h = elim (Bool-cases (name == n)) [
    | inl same ↦
        let here = (string_eq.beq_iff name n).0 same in
        rw
          (
            get-merge_names es (resolve me name (get name c.1) p c) h.1,
            get-resolve me name n (get name c.1) p c refl,
            same,
            get-absent name es same h.0,
          )
          (rw (join-none, here) refl)
    | inr other ↦
        rw
          (
            get-merge_names es (resolve me name (get name c.1) p c) h.1,
            get-resolve me name n (get name c.1) p c refl,
            other,
          )
          refl
  ]

  -- The losers of one name.
  abbrev pub named : List Loser → List Loser
  named ls = filter (λ l. l.0 == n) ls

  -- The loser of a name, if two pids claim it and the higher lives on this node.
  abbrev pub verdict : Option Pid → Option Pid → List Loser
  verdict (some a) (some b) =
      if a == b
      then []
      else (if pid_lt a b
          then (if is_local_to b me then (n, b, a) ∷ [] else [])
          else (if is_local_to a me then (n, a, b) ∷ [] else []))
  verdict _ _ = []

  named-snoc :
      (ls : List Loser) (l : Loser)
      → named (ls ++ l ∷ []) ≡ named ls ++ (if l.0 == n then l ∷ [] else [])
  named-snoc [] l = ground arith
  named-snoc (k ∷ ls) l = ground (arith, named-snoc ls l)

  named-resolve :
      (name : String) (o : Option Pid) (theirs : Pid) (c : Merging)
      → named (resolve me name o theirs c).0
        ≡ named c.0 ++ (if name == n then verdict o (some theirs) else [])
  unfolding resolve settle is_local_to
  named-resolve name none theirs c = ground (arith, append-nil (named c.0))
  named-resolve name (some ours) theirs c = ground (
    arith,
    append-nil (named c.0),
    named-snoc c.0 (name, theirs, ours),
    named-snoc c.0 (name, ours, theirs),
    string_eq.beq_iff name n,
  )

  verdict-none : (o : Option Pid) → verdict o none ≡ []
  verdict-none none = refl
  verdict-none (some a) = refl

  named-merge_names :
      (theirs : Map String Pid) (c : Merging)
      → IsTable theirs
      → named (merge_names me theirs c).0 ≡ named c.0 ++ verdict (get n c.1) (get n theirs)
  unfolding merge_names get
  named-merge_names [] c h = rw (verdict-none (get n c.1), append-nil) refl
  named-merge_names ((name, p) ∷ es) c h = elim (Bool-cases (name == n)) [
    | inl same ↦
        let here = (string_eq.beq_iff name n).0 same in
        rw
          (
            named-merge_names es (resolve me name (get name c.1) p c) h.1,
            named-resolve name (get name c.1) p c,
            same,
            get-absent name es same h.0,
            verdict-none (get n (resolve me name (get name c.1) p c).1),
            append-nil,
          )
          (rw here refl)
    | inr other ↦
        rw
          (
            named-merge_names es (resolve me name (get name c.1) p c) h.1,
            named-resolve name (get name c.1) p c,
            get-resolve me name n (get name c.1) p c refl,
            other,
            append-nil,
          )
          refl
  ]

  -- A merge reports for each name at most one loser: the higher of the two pids that the tables
  -- give it, if they differ and that pid lives on this node.
  pub merge-verdict :
      (theirs : Map String Pid) (g : GlobalNames)
      → IsTable theirs
      → named (merge theirs me g).0 ≡ verdict (get n g.names) (get n theirs)
  unfolding merge
  merge-verdict theirs g h = named-merge_names theirs ([], g.names) h

-- Two nodes that merge each other's tables end with the same holder of every name, and it is the
-- lower of the two where they differed.
pub merge-agrees :
    (n : String) (g h : GlobalNames)
    → IsTable g.names
    → IsTable h.names
    → (get n (merge h.names g.me g).1.names ≡ get n (merge g.names h.me h).1.names)
      × (get n (merge h.names g.me g).1.names ≡ join (get n g.names) (get n h.names))
unfolding merge
merge-agrees n g h tg th =
    let left = get-merge_names g.me n h.names ([], g.names) th in
    let right = get-merge_names h.me n g.names ([], h.names) tg in
    (left ∙ (join_comm (get n g.names) (get n h.names) ∙ sym right), left)
