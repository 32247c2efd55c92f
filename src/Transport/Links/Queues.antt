-- ===== src/Transport/Links/Queues.antt =====
-- src/transport.rs: where the messages that `PeerLinks::send` is given stand.
use plasmoid.Prelude.{
  ℕ, ◌<◌, ◌≡◌, ◌≢◌, refl, ap, Option, none, some, List, [], ◌∷◌, ◌++◌, ◌==◌, nat_eq, arith,
  if◌then◌else◌, nat_beq_iff, beq_refl, Option-cases, Bool-cases, inl, inr,
}
use plasmoid.Prelude.Map.{get, modify, get-insert, get-modify, get-insert_self}
use plasmoid.Pid.{EndpointId}
use plasmoid.Mailbox.{Bytes}
use plasmoid.Transport.{EndpointAddr, PeerMessage, Wire}
use plasmoid.Transport.Frame.{encode_frame}
use plasmoid.Transport.Links.{
  PeerLinks, PeerWriter, new, link_to, send, send_encoded, start_writer, enqueue, dial_target,
}

-- What a queue that may not be there holds.
abbrev frames_of : Option PeerWriter → List Bytes
frames_of none = []
frames_of (some w) = w.frames

abbrev frames_at : Option ℕ → PeerLinks → List Bytes
frames_at none p = []
frames_at (some key) p = frames_of (get key p.writers)

-- What was sent to a node over its present link.
unfoldable pub queued : EndpointId → PeerLinks → List Bytes
queued node p = frames_at (get node p.links) p

-- Each link has its own queue, which belongs to the link's node.
pub record IsLinked (p : PeerLinks) : Type 0 where
  pub has_writer :
      (node : EndpointId) (key : ℕ)
      → get node p.links ≡ some key
      → (w : PeerWriter) × (get key p.writers ≡ some w) × (w.node ≡ node)
  pub below : (key : ℕ) (w : PeerWriter) → get key p.writers ≡ some w → key < p.next_writer

abbrev fresh_writer : EndpointId → PeerLinks → PeerWriter
fresh_writer node p = record { node = node; dial = dial_target node p; frames = [] }

pub new-IsLinked : (our_addr : EndpointAddr) → IsLinked (new our_addr)
unfolding new get
new-IsLinked our_addr = record {
  has_writer = λ node key h. absurd (cc);
  below = λ key w h. absurd (cc);
}

-- A writer that is started leaves the others their queues.
start_writer-IsLinked :
    (node : EndpointId) (p : PeerLinks) → IsLinked p → IsLinked (start_writer node p)
start_writer-IsLinked node p ok = record {
  has_writer = λ other key h. elim (Bool-cases (node == other)) [
    | inl e ↦ (
      fresh_writer node p,
      ground (
        arith,
        get-insert node other p.next_writer p.links,
        get-insert_self key (fresh_writer node p) p.writers,
      ),
      ground (arith, nat_beq_iff node other),
    )
    | inr e ↦
        let (w, q, n) =
          ok.has_writer other key (ground (arith, get-insert node other p.next_writer p.links)) in
        (
          w,
          ground (
            arith,
            get-insert p.next_writer key (fresh_writer node p) p.writers,
            ok.below key w q,
          ),
          n,
        )
  ];
  below = λ key w h.
      ground (arith, get-insert p.next_writer key (fresh_writer node p) p.writers, ok.below key w);
}

enqueue-IsLinked :
    (bytes : Bytes) (key : ℕ) (p : PeerLinks)
    → IsLinked p
    → IsLinked (record p { writers = modify key (enqueue bytes) p.writers })
enqueue-IsLinked bytes key p ok = record {
  has_writer = λ node k h.
      let (w, q, n) = ok.has_writer node k h in
      (
        if key == k then enqueue bytes w else w,
        ground (arith, get-modify key k (enqueue bytes) p.writers),
        ground arith,
      );
  below = λ k w h. elim (Option-cases (get k p.writers)) [
    | inl e ↦ absurd (ground (arith, get-modify key k (enqueue bytes) p.writers))
    | inr (v, e) ↦ ok.below k v e
  ];
}

queued-start_writer :
    (node other : EndpointId) (p : PeerLinks)
    → IsLinked p
    → get node p.links ≡ none
    → queued other (start_writer node p) ≡ queued other p
unfolding queued
queued-start_writer node other p ok h = elim (Bool-cases (node == other)) [
  | inl e ↦ ground (
    arith,
    h,
    nat_beq_iff node other,
    get-insert node other p.next_writer p.links,
    get-insert_self p.next_writer (fresh_writer node p) p.writers,
  )
  | inr e ↦ elim (Option-cases (get other p.links)) [
    | inl u ↦ ground (arith, get-insert node other p.next_writer p.links)
    | inr (key, u) ↦
        let (w, q, n) = ok.has_writer other key u in
        ground (
          arith,
          get-insert node other p.next_writer p.links,
          ok.below key w q,
          get-insert p.next_writer key (fresh_writer node p) p.writers,
        )
  ]
]

queued-enqueue :
    (bytes : Bytes) (node key other : ℕ) (p : PeerLinks)
    → IsLinked p
    → get node p.links ≡ some key
    → queued other (record p { writers = modify key (enqueue bytes) p.writers })
      ≡ (if node == other then queued other p ++ bytes ∷ [] else queued other p)
unfolding queued
queued-enqueue bytes node key other p ok h = elim (Option-cases (get other p.links)) [
  | inl u ↦ ground (arith, nat_beq_iff node other)
  | inr (k, u) ↦
      let (w, q, n) = ok.has_writer other k u in
      let (v, r, m) = ok.has_writer node key h in
      ground (arith, nat_beq_iff node other, get-modify key k (enqueue bytes) p.writers)
]

-- Where the link of a node leads is a queue of that node, and its queue so far is kept.
link_to-IsLinked :
    (node : EndpointId) (p : PeerLinks)
    → IsLinked p
    → IsLinked (link_to node p).1
      × (get node (link_to node p).1.links ≡ some (link_to node p).0)
      × ((other : EndpointId) → queued other (link_to node p).1 ≡ queued other p)
unfolding link_to
link_to-IsLinked node p ok = elim (Option-cases (get node p.links)) [
  | inl e ↦ rw e (
    start_writer-IsLinked node p ok,
    get-insert_self node p.next_writer p.links,
    λ other. queued-start_writer node other p ok e,
  )
  | inr (key, e) ↦ rw e (ok, e, λ other. refl)
]

link_to-keeps :
    (node : EndpointId) (p : PeerLinks)
    → ((link_to node p).1.known ≡ p.known)
      × ((link_to node p).1.lost ≡ p.lost)
      × ((link_to node p).1.our_addr ≡ p.our_addr)
unfolding link_to
link_to-keeps node p = elim (Option-cases (get node p.links)) [
  | inl e ↦ rw e (refl, refl, refl)
  | inr (key, e) ↦ rw e (refl, refl, refl)
]

send_encoded-keeps :
    (encoded : Option Bytes) (node : EndpointId) (p : PeerLinks)
    → ((send_encoded encoded node p).1.known ≡ p.known)
      × ((send_encoded encoded node p).1.our_addr ≡ p.our_addr)
send_encoded-keeps none node p = (refl, refl)
send_encoded-keeps (some bytes) node p = let kept = link_to-keeps node p in (kept.0, kept.2)

send_encoded-IsLinked :
    (encoded : Option Bytes) (node : EndpointId) (p : PeerLinks)
    → IsLinked p
    → IsLinked (send_encoded encoded node p).1
send_encoded-IsLinked none node p ok = ok
send_encoded-IsLinked (some bytes) node p ok =
    enqueue-IsLinked bytes (link_to node p).0 (link_to node p).1 (link_to-IsLinked node p ok).0

module _ ⦃wire : Wire⦄ where
  -- Sending changes no address.
  pub send-keeps :
      (node : EndpointId) (msg : PeerMessage) (p : PeerLinks)
      → ((send node msg p).1.known ≡ p.known) × ((send node msg p).1.our_addr ≡ p.our_addr)
  unfolding send
  send-keeps node msg p = send_encoded-keeps (encode_frame msg) node p

  send-encoded :
      (node : EndpointId) (msg : PeerMessage) (bytes : Bytes) (p : PeerLinks)
      → encode_frame msg ≡ some bytes
      → send node msg p ≡ send_encoded (some bytes) node p
  unfolding send
  send-encoded node msg bytes p h = ap (λ encoded. send_encoded encoded node p) h

  pub send-IsLinked :
      (node : EndpointId) (msg : PeerMessage) (p : PeerLinks)
      → IsLinked p
      → IsLinked (send node msg p).1
  unfolding send
  send-IsLinked node msg p ok = send_encoded-IsLinked (encode_frame msg) node p ok

  -- A message that can be encoded goes to the end of its peer's queue, over a link that is there or
  -- is made; all other queues, the known addresses and the published losses stay as they are, and
  -- each link still has its own queue.
  pub send-queues :
      (node : EndpointId) (msg : PeerMessage) (bytes : Bytes) (p : PeerLinks)
      → IsLinked p
      → encode_frame msg ≡ some bytes
      → IsLinked (send node msg p).1
        × (queued node (send node msg p).1 ≡ queued node p ++ bytes ∷ [])
        × ((other : EndpointId) → other ≢ node → queued other (send node msg p).1 ≡ queued other p)
        × ((send node msg p).1.known ≡ p.known)
        × ((send node msg p).1.lost ≡ p.lost)
  send-queues node msg bytes p ok h =
      let (ok', to, same) = link_to-IsLinked node p ok in
      let kept = link_to-keeps node p in
      let added = queued-enqueue bytes node (link_to node p).0 node (link_to node p).1 ok' to in
      rw (send-encoded node msg bytes p h) (
        enqueue-IsLinked bytes (link_to node p).0 (link_to node p).1 ok',
        ground (arith, added, same node, beq_refl node),
        λ other apart. ground (
          arith,
          queued-enqueue bytes node (link_to node p).0 other (link_to node p).1 ok' to,
          same other,
          nat_beq_iff node other,
        ),
        kept.0,
        kept.1,
      )
