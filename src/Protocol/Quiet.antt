-- ===== src/Protocol/Quiet.antt =====
-- src/protocol.rs: that announcements between nodes that agree come to rest.
use plasmoid.Prelude.{
  ℕ, ◌≡◌, refl, sym, ap, ◌∙◌, true, false, ◌||◌, List, [], ◌∷◌, arith, ◌==◌, nat_eq, nat_beq_iff,
  Bool-cases, inl, inr,
}
use plasmoid.Prelude.Set
use plasmoid.Pid.{EndpointId}
use plasmoid.Cluster.{Cluster, learn}
use plasmoid.Cluster.Roster.{is_barred, is_member, learn_lem}
use plasmoid.Transport.{EndpointAddr, Wire}
use plasmoid.Protocol.{
  PlasmoidProtocol, on_announce, welcome, answer_sender, is_missing, ids_of, noted,
}

-- Nothing is missing from an announcement that names every member.
pub is_missing-false :
    (sender : EndpointId) (announced mine : List EndpointId)
    → ((n : EndpointId) → Set.contains n mine ≡ true → Set.contains n announced ≡ true)
    → is_missing sender announced mine ≡ false
unfolding is_missing Set.contains
is_missing-false sender announced [] h = refl
is_missing-false sender announced (m ∷ mine) h = ground (
  arith,
  h m,
  nat_beq_iff m m,
  is_missing-false sender announced mine (λ n c. h n (ground (arith, c))),
)

none_learned :
    (ids : List EndpointId) (now : ℕ) (n : EndpointId) (c : Cluster)
    → (Set.contains n ids ≡ true → (n == c.me || (is_barred n now c || is_member n c)) ≡ true)
    → Set.contains n (learn ids now c).0 ≡ false
none_learned ids now n c known = elim (Bool-cases (Set.contains n ids)) [
  | inl e ↦ ground (arith, (learn_lem ids now n c).0, known e)
  | inr e ↦ ground (arith, (learn_lem ids now n c).0)
]

members_stay :
    (ids : List EndpointId) (now : ℕ) (n : EndpointId) (c : Cluster)
    → Set.contains n (learn ids now c).0 ≡ false
    → is_member n (learn ids now c).1 ≡ is_member n c
members_stay ids now n c h = ground (arith, (learn_lem ids now n c).1)

module _ ⦃wire : Wire⦄ where
  pub on_announce-steps :
      (nodes : List EndpointAddr) (now : ℕ) (node : PlasmoidProtocol)
      → on_announce nodes now node
        ≡ answer_sender
            (ids_of nodes)
            (welcome (learn (ids_of nodes) now node.cluster).0 (noted nodes now node))
  unfolding on_announce
  on_announce-steps nodes now node = refl

  answer_sender-agreed :
      (sender : EndpointId) (others : List EndpointId) (n : PlasmoidProtocol)
      → is_missing sender (sender ∷ others) n.cluster.members ≡ false
      → answer_sender (sender ∷ others) n ≡ n
  answer_sender-agreed sender others n h = rw h refl

  -- Between nodes that agree there is no talk. If every node that an announcement names is the
  -- node itself, barred or a member already, and it names every member, then handling it sends
  -- nothing and starts no exchange of names: the node remembers the addresses, and its members stay
  -- the same.
  pub on_announce-quiet :
      (first : EndpointAddr) (others : List EndpointAddr) (now : ℕ) (node : PlasmoidProtocol)
      → ((n : EndpointId)
          → Set.contains n (ids_of (first ∷ others)) ≡ true
          → (n == node.cluster.me || (is_barred n now node.cluster || is_member n node.cluster))
            ≡ true)
      → ((n : EndpointId)
          → is_member n node.cluster ≡ true
          → Set.contains n (ids_of (first ∷ others)) ≡ true)
      → (on_announce (first ∷ others) now node ≡ noted (first ∷ others) now node)
        × ((n : EndpointId)
            → is_member n (on_announce (first ∷ others) now node).cluster
              ≡ is_member n node.cluster)
  on_announce-quiet first others now node known named =
      let ids = ids_of (first ∷ others) in
      let met = learn ids now node.cluster in
      let new = λ (n : EndpointId). none_learned ids now n node.cluster (known n) in
      let same = λ (n : EndpointId). members_stay ids now n node.cluster (new n) in
      let agreed =
        is_missing-false first.id ids met.1.members (λ n c. named n (sym (same n) ∙ c)) in
      let settled =
        on_announce-steps (first ∷ others) now node
        ∙ ap (λ ns. answer_sender ids (welcome ns (noted (first ∷ others) now node)))
            (Set.contains-empty met.0 new)
        ∙ answer_sender-agreed first.id (ids_of others) (noted (first ∷ others) now node) agreed in
      (settled, λ n. ap (λ (m : PlasmoidProtocol). is_member n m.cluster) settled ∙ same n)
