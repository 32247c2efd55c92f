-- ===== src/Protocol/Blind.antt =====
-- src/transport.rs and src/protocol.rs: links that know no address of a node.
use plasmoid.Prelude.{
  ℕ, ◌≡◌, refl, sym, ap, ◌∙◌, false, none, some, List, [], ◌∷◌, arith, ◌==◌, nat_eq, nat_beq_iff,
  Bool-cases, Option-cases, inl, inr,
}
use plasmoid.Prelude.Map.{get, get-insert}
use plasmoid.Prelude.Set
use plasmoid.Pid.{EndpointId}
use plasmoid.Transport.{EndpointAddr}
use plasmoid.Transport.Links.{PeerLinks, remember, remember_addrs, addrs_for}
use plasmoid.Transport.Links.Queues.{IsLinked}
use plasmoid.Protocol.{ids_of, remember_all}

-- The links know no address of the node, what they know is under its identity, and their own is
-- another.
pub record Blind (hidden : EndpointId) (p : PeerLinks) : Type 0 where
  pub unknown : get hidden p.known ≡ none
  pub keyed : (n : EndpointId) (a : EndpointAddr) → get n p.known ≡ some a → a.id ≡ n
  pub apart : (p.our_addr.id == hidden) ≡ false

abbrev pub Unnamed : EndpointId → List EndpointAddr → Type 0
Unnamed hidden nodes = Set.contains hidden (ids_of nodes) ≡ false

pub remember_addrs-Blind :
    (hidden : EndpointId) (addrs : List ℕ) (addr : EndpointAddr) (p : PeerLinks)
    → (addr.id == hidden) ≡ false
    → Blind hidden p
    → Blind hidden (remember_addrs addrs addr p)
remember_addrs-Blind hidden [] addr p other b = b
remember_addrs-Blind hidden (x ∷ addrs) addr p other b = record {
  unknown = ground (arith, get-insert addr.id hidden addr p.known, b.unknown);
  keyed = λ n a h. elim (Bool-cases (addr.id == n)) [
    | inl e ↦ ground (arith, get-insert addr.id n addr p.known, nat_beq_iff addr.id n)
    | inr e ↦ b.keyed n a (ground (arith, get-insert addr.id n addr p.known))
  ];
  apart = b.apart;
}

pub remember_addrs-own :
    (addrs : List ℕ) (addr : EndpointAddr) (p : PeerLinks)
    → (remember_addrs addrs addr p).our_addr ≡ p.our_addr
remember_addrs-own [] addr p = refl
remember_addrs-own (x ∷ addrs) addr p = refl

pub remember_addrs-IsLinked :
    (addrs : List ℕ) (addr : EndpointAddr) (p : PeerLinks)
    → IsLinked p
    → IsLinked (remember_addrs addrs addr p)
remember_addrs-IsLinked [] addr p ok = ok
remember_addrs-IsLinked (x ∷ addrs) addr p ok = record {
  has_writer = ok.has_writer;
  below = ok.below;
}

pub remember_all-IsLinked :
    (nodes : List EndpointAddr) (p : PeerLinks) → IsLinked p → IsLinked (remember_all nodes p)
unfolding remember_all remember
remember_all-IsLinked [] p ok = ok
remember_all-IsLinked (addr ∷ nodes) p ok =
    remember_all-IsLinked nodes (remember addr p) (remember_addrs-IsLinked addr.addrs addr p ok)

pub remember_all-Blind :
    (hidden : EndpointId) (nodes : List EndpointAddr) (p : PeerLinks)
    → Unnamed hidden nodes
    → Blind hidden p
    → Blind hidden (remember_all nodes p) × ((remember_all nodes p).our_addr ≡ p.our_addr)
unfolding remember_all Set.contains
remember_all-Blind hidden [] p h b = (b, refl)
remember_all-Blind hidden (addr ∷ nodes) p h b =
    let (blind, own) =
      remember_all-Blind hidden nodes (remember addr p) (ground (arith, h))
        (remember_addrs-Blind hidden addr.addrs addr p (ground (arith, h)) b) in
    (blind, own ∙ remember_addrs-own addr.addrs addr p)

pub addrs_for-Unnamed :
    (hidden : EndpointId) (nodes : List EndpointId) (p : PeerLinks)
    → Blind hidden p
    → Unnamed hidden (addrs_for nodes p)
unfolding addrs_for Set.contains
addrs_for-Unnamed hidden [] p b = refl
addrs_for-Unnamed hidden (n ∷ nodes) p b = elim (Option-cases (get n p.known)) [
  | inl e ↦ rw e (addrs_for-Unnamed hidden nodes p b)
  | inr (a, e) ↦ rw e (
      ground (
        arith,
        addrs_for-Unnamed hidden nodes p b,
        b.keyed n a e,
        b.unknown,
        nat_beq_iff n hidden,
        nat_beq_iff a.id hidden,
      ))
]

pub same_addresses-Blind :
    (hidden : EndpointId) (p q : PeerLinks)
    → q.known ≡ p.known
    → q.our_addr ≡ p.our_addr
    → Blind hidden p
    → Blind hidden q
same_addresses-Blind hidden p q known own b = record {
  unknown = rw known b.unknown;
  keyed = λ n a h. b.keyed n a (ap (get n) (sym known) ∙ h);
  apart = rw own b.apart;
}
