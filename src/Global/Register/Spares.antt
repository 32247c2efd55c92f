-- ===== src/Global/Register/Spares.antt =====
-- `unregister` of src/global.rs takes a name from nobody else.
use plasmoid.Prelude.{
  ◌≡◌, refl, sym, ◌∙◌, String, some, List, [], ◌∷◌, arith, ◌==◌, ◌⊎◌, inl, inr, Bool-cases,
  Option-cases, nat_eq, string_eq, subst,
}
use plasmoid.Prelude.Map.{get, get-remove}
use plasmoid.Pid.{Pid, pid_eq, pid_beq_iff, EndpointId}
use plasmoid.Global.{GlobalNames, apply, give_up, release}
use plasmoid.Global.Claim.{Tables, Fate, ask, put}
use plasmoid.Global.Claim.Requests.{ask-table}
use plasmoid.Global.Register.{release_at, unregister}

-- Of the names of a table, only those of the pid may go.
pub record Spares (pid : Pid) (g h : GlobalNames) : Type 0 where
  pub kept : (n : String) → (get n h.names ≡ get n g.names) ⊎ (get n g.names ≡ some pid)

Spares-refl : (pid : Pid) (g : GlobalNames) → Spares pid g g
Spares-refl pid g = record { kept = λ n. inl refl }

give_up-Spares : (name : String) (pid : Pid) (g : GlobalNames) → Spares pid g (give_up name pid g).1
unfolding give_up
give_up-Spares name pid g = record { kept = fate }
  where
    fate :
        (n : String)
        → (get n (give_up name pid g).1.names ≡ get n g.names) ⊎ (get n g.names ≡ some pid)
    fate n = elim (Option-cases (get name g.names)) [
      | inl e ↦ inl (rw e refl)
      | inr (owner, e) ↦ elim (Bool-cases (owner == pid)) [
        | inr other ↦ inl (rw (e, other) refl)
        | inl own ↦ elim (Bool-cases (name == n)) [
          | inl same ↦
              inr (ground (arith, e, own, same, string_eq.beq_iff name n, pid_beq_iff owner pid))
          | inr away ↦ inl (rw (e, own) (ground (arith, get-remove name n g.names, away)))
        ]
      ]
    ]

Spares-trans : {pid : Pid} {g h k : GlobalNames} → Spares pid g h → Spares pid h k → Spares pid g k
Spares-trans x y = record {
  kept = λ n. elim (x.kept n) [
    | inr own ↦ inr own
    | inl same ↦ elim (y.kept n) [ inr own ↦ inr (sym same ∙ own) | inl also ↦ inl (also ∙ same) ]
  ];
}

module _ (me : EndpointId) (name : String) (pid : Pid) (node : EndpointId) where
  ask_release-Spares :
      (fate : Fate) (to : EndpointId) (w : Tables)
      → Spares pid (w node) ((ask fate me to (release name pid) w).1 node)
  unfolding apply
  ask_release-Spares fate to w =
      ask-table (Spares pid (w node)) fate me to node (release name pid) w
        (Spares-refl pid (w node)) λ _. give_up-Spares name pid (w node)

  release_at-Spares :
      (nodes : List (EndpointId × Fate)) (w : Tables)
      → Spares pid (w node) (release_at nodes me name pid w node)
  unfolding release_at
  release_at-Spares [] w = Spares-refl pid (w node)
  release_at-Spares ((to, fate) ∷ nodes) w =
      Spares-trans (ask_release-Spares fate to w)
        (release_at-Spares nodes (ask fate me to (release name pid) w).1)

  put-Spares : (w : Tables) → Spares pid (w node) (put me (give_up name pid (w me)).1 w node)
  put-Spares w = elim (Bool-cases (node == me)) [
    | inr away ↦ rw away (Spares-refl pid (w node))
    | inl own ↦ rw own (
        subst (λ m. Spares pid (w m) (give_up name pid (w me)).1)
          (sym ((nat_eq.beq_iff node me).0 own)) (give_up-Spares name pid (w me)))
  ]

  -- Unregistering a name, as the death of a particle does, takes at no node any name from anyone
  -- but the pid.
  pub unregister-Spares :
      (nodes : List (EndpointId × Fate)) (w : Tables)
      → Spares pid (w node) (unregister nodes me name pid w node)
  unfolding unregister
  unregister-Spares nodes w = elim (Bool-cases (give_up name pid (w me)).0) [
    | inr kept ↦ rw kept (put-Spares w)
    | inl gone ↦ rw gone (
        Spares-trans (put-Spares w)
          (release_at-Spares nodes (put me (give_up name pid (w me)).1 w)))
  ]
