-- ===== src/Signals/Downs.antt =====
-- What the loss of a node in src/signals.rs tells the particles that monitor one of its particles.
use plasmoid.Prelude.{
  ℕ, ◌≡◌, ◌⊎◌, refl, sym, ap, ◌∙◌, Bool, true, false, Option, none, some, List, [], ◌∷◌, ◌++◌,
  arith, map, ◌==◌, nat_eq, nat_beq_iff, Bool-cases, Option-cases, inl, inr,
}
use plasmoid.Prelude.Map.{get, get-modify}
use plasmoid.Pid.{Pid, pid_eq, pid_beq_iff, EndpointId, is_local_to}
use plasmoid.Message.{SystemMessage, ExitReason, no_connection}
use plasmoid.Mailbox.{Mailbox, MailboxMessage, down, push_system}
use plasmoid.Registry.State.{ParticleRegistry, ParticleState, with_mailbox}
use plasmoid.Registry.Send.{deliver_down, send_system}
use plasmoid.Registry.Relate.{monitors_with, links_with, forget_node, forget_in}
use plasmoid.Registry.Views.{States}
use plasmoid.Signals.{fire_links, fire_monitors, fire_all, on_node_lost}
use plasmoid.Signals.Fire.{fire_links-Returns}
use plasmoid.Signals.Told.{
  Among, Among-cons, Among-map, Among-filter, Among-append_left, Among-append_right,
}

abbrev queue_of : Option Mailbox → List MailboxMessage
queue_of none = []
queue_of (some m) = m.queue

abbrev is_there : Option Mailbox → Bool
is_there none = false
is_there (some m) = true

abbrev box_of : Option ParticleState → ParticleRegistry → Option Mailbox
box_of none r = none
box_of (some s) r = get s.mailbox r.mailboxes

-- The mailbox of a particle that lives.
abbrev box : Pid → ParticleRegistry → Option Mailbox
box p r = box_of (get p r.particle_states) r

-- A particle has no mailbox, as when it is dead, or the message is in it.
abbrev pub Heard : Pid → MailboxMessage → ParticleRegistry → Type 0
Heard p msg r = (is_there (box p r) ≡ false) ⊎ Among msg (queue_of (box p r))

module _ (to from : Pid) (ref_id : ℕ) (reason : ExitReason) (r : ParticleRegistry) where
  abbrev told : Mailbox → Mailbox
  told = push_system (SystemMessage.down from ref_id reason)

  deliver_down-own : Heard to (down from ref_id reason) (deliver_down to from ref_id reason r)
  unfolding deliver_down send_system with_mailbox push_system
  deliver_down-own = elim (Option-cases (get to r.particle_states)) [
    | inl e ↦ inl (ground (arith, e))
    | inr (s, e) ↦
        let pushed = get-modify s.mailbox s.mailbox told r.mailboxes in
        elim (Option-cases (get s.mailbox r.mailboxes)) [
          | inl f ↦ inl (ground (arith, e, f, pushed))
          | inr (m, f) ↦
              inr ([], m.queue, ground (arith, e, f, pushed, nat_beq_iff s.mailbox s.mailbox))
        ]
  ]

  -- What was in a mailbox stays there.
  box-deliver_down :
      (p : Pid)
      → (box p (deliver_down to from ref_id reason r) ≡ box p r)
        ⊎ ((m : Mailbox) × (box p r ≡ some m)
            × (box p (deliver_down to from ref_id reason r) ≡ some (told m)))
  unfolding deliver_down send_system with_mailbox
  box-deliver_down p = elim (Option-cases (get to r.particle_states)) [
    | inl e ↦ inl (ground (arith, e))
    | inr (s, e) ↦ elim (Option-cases (get p r.particle_states)) [
      | inl d ↦ inl (ground (arith, e, d))
      | inr (u, d) ↦
          let pushed = get-modify s.mailbox u.mailbox told r.mailboxes in
          elim (Bool-cases (s.mailbox == u.mailbox)) [
            | inr other ↦ inl (ground (arith, e, d, other, pushed))
            | inl same ↦ elim (Option-cases (get u.mailbox r.mailboxes)) [
              | inl f ↦ inl (ground (arith, e, d, f, same, pushed))
              | inr (m, f) ↦ inr (m, ground (arith, d, f), ground (arith, e, d, f, same, pushed))
            ]
          ]
    ]
  ]

  Heard-deliver_down :
      (p : Pid) (msg : MailboxMessage)
      → Heard p msg r
      → Heard p msg (deliver_down to from ref_id reason r)
  unfolding push_system
  Heard-deliver_down p msg (inl gone) = elim (box-deliver_down p) [
    | inl same ↦ inl (ap is_there same ∙ gone)
    | inr (m, was, is) ↦ absurd (ground (arith, gone, was))
  ]
  Heard-deliver_down p msg (inr (pre, post, e)) = elim (box-deliver_down p) [
    | inl same ↦ inr (pre, post, ap queue_of same ∙ e)
    | inr (m, was, is) ↦ inr (
      down from ref_id reason ∷ pre,
      post,
      ap queue_of is
          ∙ ap (λ (q : List MailboxMessage). down from ref_id reason ∷ q)
              (ap queue_of (sym was) ∙ e),
    )
  ]

module _ (node : EndpointId) where
  fire_monitors-keeps :
      (ms : List (Pid × Pid × ℕ)) (p : Pid) (msg : MailboxMessage) (r : ParticleRegistry)
      → Heard p msg r
      → Heard p msg (fire_monitors ms r)
  unfolding fire_monitors
  fire_monitors-keeps [] p msg r h = h
  fire_monitors-keeps ((w, t, ref_id) ∷ ms) p msg r h =
      fire_monitors-keeps ms p msg (deliver_down w t ref_id no_connection r)
        (Heard-deliver_down w t ref_id no_connection r p msg h)

  fire_monitors-Heard :
      (pre post : List (Pid × Pid × ℕ)) (w t : Pid) (ref_id : ℕ) (r : ParticleRegistry)
      → Heard w (down t ref_id no_connection) (fire_monitors (pre ++ (w, t, ref_id) ∷ post) r)
  unfolding fire_monitors
  fire_monitors-Heard [] post w t ref_id r =
      fire_monitors-keeps post w (down t ref_id no_connection)
        (deliver_down w t ref_id no_connection r) (deliver_down-own w t ref_id no_connection r)
  fire_monitors-Heard ((v, u, k) ∷ pre) post w t ref_id r =
      fire_monitors-Heard pre post w t ref_id (deliver_down v u k no_connection r)

  -- Forgetting the node leaves every particle its mailbox.
  get-forgotten :
      (p : Pid) (m : States)
      → get p (map (λ e. (e.0, forget_in node e.1)) m)
        ≡ elim (get p m) [ none ↦ none | some s ↦ some (forget_in node s) ]
  unfolding get
  get-forgotten p [] = refl
  get-forgotten p ((q, s) ∷ m) = ground (arith, get-forgotten p m)

  box-forget_node : (p : Pid) (r : ParticleRegistry) → box p (forget_node node r) ≡ box p r
  unfolding forget_node forget_in
  box-forget_node p r = elim (Option-cases (get p r.particle_states)) [
    | inl e ↦ ground (arith, e, get-forgotten p r.particle_states)
    | inr (s, e) ↦ ground (arith, e, get-forgotten p r.particle_states)
  ]

  Heard-forget_node :
      (p : Pid) (msg : MailboxMessage) (r : ParticleRegistry)
      → Heard p msg r
      → Heard p msg (forget_node node r)
  Heard-forget_node p msg r (inl gone) = inl (ap is_there (box-forget_node p r) ∙ gone)
  Heard-forget_node p msg r (inr (pre, post, e)) =
      inr (pre, post, ap queue_of (box-forget_node p r) ∙ e)

  get-Among {ℓ} :
      {V : Type ℓ} (k : ℕ) (v : V) (m : List (ℕ × V)) → get k m ≡ some v → Among (k, v) m
  unfolding get
  get-Among k v [] h = absurd (cc)
  get-Among k v ((j, u) ∷ m) h = elim (Bool-cases (j == k)) [
    | inl e ↦
        let here : j ≡ k = (nat_beq_iff j k).0 e in
        let value : u ≡ v = ground (arith, h, e) in ([], m, rw here (rw value refl))
    | inr e ↦ Among-cons (j, u) (k, v) m (get-Among k v m (ground (arith, h, e)))
  ]

  -- A monitor of a particle of the node is among those that fire.
  monitors_with-Among :
      (w t : Pid) (ref_id : ℕ) (s : ParticleState) (m : States)
      → get w m ≡ some s
      → get ref_id s.monitors ≡ some t
      → is_local_to t node ≡ true
      → Among (w, t, ref_id) (monitors_with node m)
  unfolding get monitors_with
  monitors_with-Among w t ref_id s [] h k there = absurd (cc)
  monitors_with-Among w t ref_id s ((p, u) ∷ m) h k there = elim (Bool-cases (p == w)) [
    | inl e ↦
        let here : p ≡ w = (pid_beq_iff p w).0 e in
        let state : u ≡ s = ground (arith, h, e) in
        rw here (
          rw state (
            Among-append_left (w, t, ref_id) _ (monitors_with node m)
              (Among-map (λ (x : ℕ × Pid). (w, x.1, x.0)) (ref_id, t) _
                (Among-filter (λ (x : ℕ × Pid). is_local_to x.1 node) (ref_id, t) s.monitors there
                  (get-Among ref_id t s.monitors k)))))
    | inr e ↦
        Among-append_right (w, t, ref_id) _ (monitors_with node m)
          (monitors_with-Among w t ref_id s m (ground (arith, h, e)) k there)
  ]

  abbrev fired : List (Pid × Pid × ℕ) → Option ParticleRegistry → Option ParticleRegistry
  fired ms o = elim o [ none ↦ none | some r ↦ some (forget_node node (fire_monitors ms r)) ]

  fire_all-some :
      (ls : List (Pid × Pid)) (pre post : List (Pid × Pid × ℕ)) (x : Pid × Pid × ℕ)
      (r : ParticleRegistry)
      → fire_all ls (pre ++ x ∷ post) node r ≡ fired (pre ++ x ∷ post) (fire_links ls r)
  unfolding fire_all
  fire_all-some [] [] post x r = refl
  fire_all-some [] (y ∷ pre) post x r = refl
  fire_all-some (l ∷ ls) [] post x r = refl
  fire_all-some (l ∷ ls) (y ∷ pre) post x r = refl

  -- When a node is lost, whoever monitors a particle of it is told. What the node does then ends,
  -- whatever exits it brings about, and a particle that had a monitor of a particle of the lost node
  -- has the `Down` of that monitor, with the reason `NoConnection`, in its mailbox, unless the
  -- registry has no state or no mailbox of it any more.
  pub on_node_lost-Heard :
      (w t : Pid) (ref_id : ℕ) (s : ParticleState) (r : ParticleRegistry)
      → get w r.particle_states ≡ some s
      → get ref_id s.monitors ≡ some t
      → is_local_to t node ≡ true
      → (n : ParticleRegistry) × (on_node_lost node r ≡ some n)
        × Heard w (down t ref_id no_connection) n
  unfolding on_node_lost
  on_node_lost-Heard w t ref_id s r h k there =
      let (pre, post, e) = monitors_with-Among w t ref_id s r.particle_states h k there in
      let ls = links_with node r.particle_states in
      let (n, done, u, le) = fire_links-Returns (λ _. Unit {0}) (λ pid x y z v. tt) ls r tt in
      let all = pre ++ (w, t, ref_id) ∷ post in
      (
        forget_node node (fire_monitors all n),
        ap (λ ms. fire_all ls ms node r) e
            ∙ (fire_all-some ls pre post (w, t, ref_id) r ∙ ap (fired all) done),
        Heard-forget_node w (down t ref_id no_connection) (fire_monitors all n)
            (fire_monitors-Heard pre post w t ref_id n),
      )
