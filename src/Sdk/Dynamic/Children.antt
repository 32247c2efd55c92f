-- ===== src/Sdk/Dynamic/Children.antt =====
-- The children of a dynamic supervisor in crates/plasmoid-sdk/src/supervisor.rs: unique ids, and
-- how they come and go.
use plasmoid.Prelude.{
  ℕ, ◌≡◌, refl, subst, String, Bool, true, false, ◌||◌, Option, none, some, List, [], ◌∷◌, ◌++◌,
  arith, ◌==◌, string_eq, beq_refl, All, position, remove_at, Option-cases, position-remove_at,
  position-none, inl, inr, any, Bool-cases, length,
}
use plasmoid.Sdk.Spec.{SupFlags, ExitReason, ChildSpec, start, stop_child, should_restart}
use plasmoid.Sdk.Dynamic.{
  DynamicSupervisor, new, started, contains, start_child, terminate_child, stop_removed,
  remove_found, shutdown, restart_child, on_found, on_child_exit,
}

-- No id occurs twice.
abbrev pub Unique : List ChildSpec → Type 0
Unique [] = Unit
Unique (c ∷ cs) = (any (λ d. d.id == c.id) cs ≡ false) × Unique cs

any-append :
    (p : ChildSpec → Bool) (xs ys : List ChildSpec) → any p (xs ++ ys) ≡ (any p xs || any p ys)
any-append p [] ys = refl
any-append p (x ∷ xs) ys = ground (arith, any-append p xs ys)

Unique-snoc :
    (cs : List ChildSpec) (c : ChildSpec)
    → any (λ d. d.id == c.id) cs ≡ false
    → Unique cs
    → Unique (cs ++ c ∷ [])
Unique-snoc [] c h u = (refl, tt)
Unique-snoc (d ∷ cs) c h u = (
  ground (
    arith,
    any-append (λ e. e.id == d.id) cs (c ∷ []),
    string_eq.beq_iff c.id d.id,
    string_eq.beq_iff d.id c.id,
    u.0,
  ),
  Unique-snoc cs c (ground arith) u.1,
)

Unique-remove :
    (pre post : List ChildSpec) (c : ChildSpec) → Unique (pre ++ c ∷ post) → Unique (pre ++ post)
Unique-remove [] post c u = u.1
Unique-remove (d ∷ pre) post c u = (
  ground (
    arith,
    u.0,
    any-append (λ e. e.id == d.id) pre (c ∷ post),
    any-append (λ e. e.id == d.id) pre post,
  ),
  Unique-remove pre post c u.1,
)

any-none :
    (p : ChildSpec → Bool) (xs : List ChildSpec) → All (λ x. p x ≡ false) xs → any p xs ≡ false
any-none p [] h = refl
any-none p (x ∷ xs) h = ground (arith, h.0, any-none p xs h.1)

pub Unique-absent :
    (pre post : List ChildSpec) (c : ChildSpec) (id : String)
    → (c.id == id) ≡ true
    → All (λ d. (d.id == id) ≡ false) pre
    → Unique (pre ++ c ∷ post)
    → any (λ d. d.id == id) (pre ++ post) ≡ false
Unique-absent [] post c id same h u =
    subst (λ i. any (λ d. d.id == i) post ≡ false) ((string_eq.beq_iff c.id id).0 same) u.0
Unique-absent (d ∷ pre) post c id same h u =
    ground (arith, h.0, Unique-absent pre post c id same h.1 u.1)

-- Taking a child out by its id: nothing is there, or the first such child goes.
pub remove_found-cases {ℓ} :
    (P : Option (ChildSpec × List ChildSpec) → Type ℓ) (id : String) (cs : List ChildSpec)
    → (any (λ d. d.id == id) cs ≡ false → P none)
    → ((pre post : List ChildSpec) (c : ChildSpec)
        → cs ≡ pre ++ c ∷ post
        → All (λ d. (d.id == id) ≡ false) pre
        → (c.id == id) ≡ true
        → P (some (c, pre ++ post)))
    → P (remove_found (position (λ c. c.id == id) cs) cs)
remove_found-cases P id cs missing found = elim (Option-cases (position (λ c. c.id == id) cs)) [
  | inl e ↦ rw e (missing (any-none _ cs (position-none _ cs e)))
  | inr (i, e) ↦
      let (pre, c, post, whole, before, hit, taken) = position-remove_at (λ c. c.id == id) cs i e in
      rw (e, remove_found, taken) (found pre post c whole before hit)
]

start_child-Unique :
    (c : ChildSpec) (s : DynamicSupervisor)
    → Unique s.children
    → Unique (start_child c s).1.children
unfolding start_child
start_child-Unique c s u = elim (Bool-cases (any (λ d. d.id == c.id) s.children)) [
  | inl there ↦ rw there u
  | inr fresh ↦ rw fresh (Unique-snoc s.children c fresh u)
]

terminate_child-Unique :
    (id : String) (s : DynamicSupervisor)
    → Unique s.children
    → Unique (terminate_child id s).1.children
unfolding terminate_child
terminate_child-Unique id s u =
    remove_found-cases (λ o. Unique (stop_removed o s).1.children) id s.children (λ _. u)
      λ pre post c whole _ _. Unique-remove pre post c (subst Unique whole u)

restart_child-children :
    (P : List ChildSpec → Type 0) (c : ChildSpec) (now : ℕ) (s : DynamicSupervisor)
    → P []
    → P s.children
    → P (restart_child c now s).1.children
unfolding restart_child
restart_child-children P c now s nil same = ground arith

on_child_exit-Unique :
    (id : String) (reason : ExitReason) (now : ℕ) (s : DynamicSupervisor)
    → Unique s.children
    → Unique (on_child_exit id reason now s).1.children
unfolding on_child_exit on_found
on_child_exit-Unique id reason now s u =
    remove_found-cases (λ o. Unique (on_found o reason now s).1.children) id s.children (λ _. u)
      λ pre post c whole _ _.
        let gone = Unique-remove pre post c (subst Unique whole u) in
        elim (Bool-cases (should_restart c.restart reason)) [
          | inl again ↦ rw (again, on_found) (restart_child-children Unique c now s tt u)
          | inr never ↦ rw (never, on_found) gone
        ]

-- What can happen to a dynamic supervisor.
pub data Event : Type 0 where
  starts : ChildSpec → Event
  terminates : String → Event
  exits : String → ExitReason → ℕ → Event
  shuts_down : Event

abbrev pub step : Event → DynamicSupervisor → DynamicSupervisor
step (starts c) s = (start_child c s).1
step (terminates id) s = (terminate_child id s).1
step (exits id reason now) s = (on_child_exit id reason now s).1
step shuts_down s = (shutdown s).1

abbrev pub run : List Event → DynamicSupervisor → DynamicSupervisor
run [] s = s
run (e ∷ es) s = run es (step e s)

step-Unique : (e : Event) (s : DynamicSupervisor) → Unique s.children → Unique (step e s).children
unfolding shutdown
step-Unique (starts c) s u = start_child-Unique c s u
step-Unique (terminates id) s u = terminate_child-Unique id s u
step-Unique (exits id reason now) s u = on_child_exit-Unique id reason now s u
step-Unique shuts_down s u = tt

run-keeps :
    (es : List Event) (s : DynamicSupervisor) → Unique s.children → Unique (run es s).children
run-keeps [] s u = u
run-keeps (e ∷ es) s u = run-keeps es (step e s) (step-Unique e s u)

-- However children start, end and are told to stop, no two live children ever share an id.
pub run-Unique : (flags : SupFlags) (es : List Event) → Unique (run es (new flags)).children
unfolding new
run-Unique flags es = run-keeps es (new flags) tt

position-snoc :
    (cs : List ChildSpec) (c : ChildSpec)
    → any (λ d. d.id == c.id) cs ≡ false
    → position (λ d. d.id == c.id) (cs ++ c ∷ []) ≡ some (length cs)
position-snoc [] c h = ground (arith, beq_refl c.id)
position-snoc (d ∷ cs) c h = ground (arith, position-snoc cs c)

remove_at-snoc :
    (cs : List ChildSpec) (c : ChildSpec) → remove_at (length cs) (cs ++ c ∷ []) ≡ some (c, cs)
remove_at-snoc [] c = refl
remove_at-snoc (d ∷ cs) c = rw (remove_at-snoc cs c)

-- A child with a fresh id is started, and terminating it by that id stops it as its own
-- specification says and leaves the supervisor as it was before.
pub terminate_child-start_child :
    (c : ChildSpec) (s : DynamicSupervisor)
    → contains c.id s ≡ false
    → ((start_child c s).0 ≡ started (start c))
      × (terminate_child c.id (start_child c s).1 ≡ (some (stop_child c), s))
unfolding contains start_child terminate_child
terminate_child-start_child c s fresh =
    (rw fresh, rw (fresh, position-snoc s.children c fresh, remove_at-snoc s.children c))

-- After a child has been terminated its id is free, so that it can be started again.
pub start_child-terminate_child :
    (c : ChildSpec) (s : DynamicSupervisor)
    → Unique s.children
    → (start_child c (terminate_child c.id s).1).0 ≡ started (start c)
unfolding start_child terminate_child contains
start_child-terminate_child c s u =
    remove_found-cases (λ o. (start_child c (stop_removed o s).1).0 ≡ started (start c)) c.id
      s.children (λ free. rw free)
      λ pre post d whole before same.
        rw (Unique-absent pre post d c.id same before (subst Unique whole u))
