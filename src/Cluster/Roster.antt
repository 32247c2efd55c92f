-- ===== src/Cluster/Roster.antt =====
-- Who becomes a member in src/cluster.rs, and who cannot.
use plasmoid.Prelude.{
  ℕ, ◌≡◌, refl, ◌∙◌, Bool, false, not, ◌&&◌, ◌||◌, none, some, List, [], ◌∷◌, arith, ltb,
  if◌then◌else◌, ◌==◌, nat_eq, filter, Option-cases, Bool-cases, inl, inr,
}
use plasmoid.Prelude.Map.{get, get-remove}
use plasmoid.Prelude.Set
use plasmoid.Prelude.Set.{contains-insert, contains-remove}
use plasmoid.Pid.{EndpointId}
use plasmoid.Cluster.{Cluster, is_quarantined, learn_one, learn_all, learn}

-- Whether a node is barred at a time.
abbrev pub is_barred : EndpointId → ℕ → Cluster → Bool
is_barred node now c = elim (get node c.quarantined) [ none ↦ false | some until ↦ ltb now until ]

abbrev pub is_member : EndpointId → Cluster → Bool
is_member node c = Set.contains node c.members

-- The check tells who is barred, and it forgets what has expired, no more.
pub record Checks (node : EndpointId) (now : ℕ) (c : Cluster) (r : Bool × Cluster) : Type 0 where
  pub answer : r.0 ≡ is_barred node now c
  pub me : r.1.me ≡ c.me
  pub members : r.1.members ≡ c.members
  pub barred : (n : EndpointId) → is_barred n now r.1 ≡ is_barred n now c

pub is_quarantined-Checks :
    (node : EndpointId) (now : ℕ) (c : Cluster) → Checks node now c (is_quarantined node now c)
unfolding is_quarantined
is_quarantined-Checks node now c = elim (Option-cases (get node c.quarantined)) [
  | inl e ↦
      rw e (record { answer = ground (arith, e); me = refl; members = refl; barred = λ n. refl })
  | inr (until, e) ↦ elim (Bool-cases (ltb now until)) [
    | inl early ↦
        rw (e, early)
          (record {
            answer = ground (arith, e, early);
            me = refl;
            members = refl;
            barred = λ n. refl;
          })
    | inr late ↦
        rw (e, late)
          (record {
            answer = ground (arith, e, late);
            me = refl;
            members = refl;
            barred = λ n.
                ground (arith, get-remove node n c.quarantined, e, late, nat_eq.beq_iff node n);
          })
  ]
]

-- What learning does: who is fresh, and who is a member then.
pub record Learns (now : ℕ) (wanted : EndpointId → Bool) (c : Cluster) (fresh : EndpointId → Bool)
    (d : Cluster) : Type 0 where
  pub me : d.me ≡ c.me
  pub fresh_are :
      (n : EndpointId) → fresh n ≡ (wanted n && (not (is_barred n now c) && not (is_member n c)))
  pub members : (n : EndpointId) → is_member n d ≡ (is_member n c || fresh n)
  pub barred : (n : EndpointId) → is_barred n now d ≡ is_barred n now c

learn_one-Learns :
    (node : EndpointId) (now : ℕ) (c : Cluster)
    → Learns now
        (λ n. node == n)
        c
        (λ n. (node == n) && (learn_one node now c).0)
        (learn_one node now c).1
unfolding learn_one
learn_one-Learns node now c =
    let k = is_quarantined-Checks node now c in
    record {
      me = ground (arith, k.me);
      fresh_are = λ n. ground (arith, k.answer, k.members, nat_eq.beq_iff node n);
      members = λ n. ground (
        arith,
        k.answer,
        k.members,
        nat_eq.beq_iff node n,
        contains-insert node n (is_quarantined node now c).1.members,
      );
      barred = λ n. ground (arith, k.barred n);
    }

Learns-cons :
    (node : EndpointId) (nodes : List EndpointId) (now : ℕ) (c : Cluster) (one : Bool × Cluster)
    (rest : List EndpointId × Cluster)
    → Learns now (λ n. node == n) c (λ n. (node == n) && one.0) one.1
    → Learns now (λ n. Set.contains n nodes) one.1 (λ n. Set.contains n rest.0) rest.1
    → Learns now
        (λ n. Set.contains n (node ∷ nodes))
        c
        (λ n. Set.contains n (if one.0 then node ∷ rest.0 else rest.0))
        rest.1
unfolding Set.contains
Learns-cons node nodes now c one rest x y = record {
  me = y.me ∙ x.me;
  fresh_are = λ n.
      ground (arith, x.fresh_are n, x.members n, x.barred n, y.fresh_are n, nat_eq.beq_iff node n);
  members = λ n. ground (arith, x.members n, y.members n, nat_eq.beq_iff node n);
  barred = λ n. y.barred n ∙ x.barred n;
}

learn_all-Learns :
    (nodes : List EndpointId) (now : ℕ) (c : Cluster)
    → Learns now
        (λ n. Set.contains n nodes)
        c
        (λ n. Set.contains n (learn_all nodes now c).0)
        (learn_all nodes now c).1
unfolding learn_all Set.contains
learn_all-Learns [] now c = record {
  me = refl;
  fresh_are = λ n. refl;
  members = λ n. ground arith;
  barred = λ n. refl;
}
learn_all-Learns (node ∷ nodes) now c =
    Learns-cons node nodes now c (learn_one node now c)
      (learn_all nodes now (learn_one node now c).1) (learn_one-Learns node now c)
      (learn_all-Learns nodes now (learn_one node now c).1)

contains-others :
    (me n : EndpointId) (nodes : List EndpointId)
    → Set.contains n (filter (λ m. not (m == me)) nodes) ≡ (Set.contains n nodes && not (n == me))
unfolding Set.contains
contains-others me n [] = ground arith
contains-others me n (m ∷ nodes) = ground (arith, contains-others me n nodes, nat_eq.beq_iff m n)

pub learn-Learns :
    (nodes : List EndpointId) (now : ℕ) (c : Cluster)
    → Learns now
        (λ n. Set.contains n nodes && not (n == c.me))
        c
        (λ n. Set.contains n (learn nodes now c).0)
        (learn nodes now c).1
unfolding learn
learn-Learns nodes now c =
    let l = learn_all-Learns (filter (λ m. not (m == c.me)) nodes) now c in
    record {
      me = l.me;
      fresh_are = λ n. ground (arith, l.fresh_are n, contains-others c.me n nodes);
      members = l.members;
      barred = l.barred;
    }

-- Learning reports exactly the named nodes that are new: other than this node, not barred, and no
-- members yet. They are then members beside the old ones, and learning them again at the same
-- time reports nothing.
pub learn_lem :
    (nodes : List EndpointId) (now : ℕ) (n : EndpointId) (c : Cluster)
    → (Set.contains n (learn nodes now c).0 ≡ (
        (Set.contains n nodes && not (n == c.me))
        && (not (is_barred n now c) && not (is_member n c))))
      × (is_member n (learn nodes now c).1
          ≡ (is_member n c || Set.contains n (learn nodes now c).0))
      × (Set.contains n (learn nodes now (learn nodes now c).1).0 ≡ false)
learn_lem nodes now n c =
    let l = learn-Learns nodes now c in
    let again = learn-Learns nodes now (learn nodes now c).1 in
    (
      l.fresh_are n,
      l.members n,
      ground (arith, again.fresh_are n, l.fresh_are n, l.members n, l.barred n, l.me),
    )
