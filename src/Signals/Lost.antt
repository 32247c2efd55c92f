-- ===== src/Signals/Lost.antt =====
-- What the loss of a node in src/signals.rs does to the particles linked to it.
use plasmoid.Prelude.{
  ℕ, ◌≤◌, ◌≡◌, refl, Bool, true, false, not, ◌&&◌, ◌||◌, Option, none, some, List, [], ◌∷◌, ◌++◌,
  arith, map, filter, any, ◌==◌, Bool-cases, inl, inr, length, length-map, nat_eq,
}
use plasmoid.Prelude.Map.{get, contains_key, contains_key-get}
use plasmoid.Prelude.Set
use plasmoid.Pid.{Pid, pid_eq, pid_beq_iff, EndpointId, is_local_to}
use plasmoid.Registry.State.{ParticleRegistry, ParticleState}
use plasmoid.Registry.Relate.{links_with, monitors_with, forget_node, forget_in}
use plasmoid.Registry.Views.{States, is_linked}
use plasmoid.Registry.Cascade.{Returns}
use plasmoid.Registry.Symmetry.{is_alive, linked}
use plasmoid.Registry.Spread.{is_mortal}
use plasmoid.Signals.{fire_links, fire_monitors, fire_all, on_node_lost}
use plasmoid.Signals.Fire.{states-fire_monitors, fire_links-Returns, fire_links-kills, is_from}

-- What the loss of a node leaves of the link of `q` to its particle `p`.
abbrev pub Severed : Pid → Pid → ParticleRegistry → ParticleRegistry → Type 0
Severed q p r n =
    (linked q p n ≡ false) × ((linked q p r && (is_mortal q r && is_alive q n)) ≡ false)

any-append :
    (p : Pid × Pid → Bool) (xs ys : List (Pid × Pid)) → any p (xs ++ ys) ≡ (any p xs || any p ys)
any-append p [] ys = refl
any-append p (x ∷ xs) ys = ground (arith, any-append p xs ys)

module _ (node : EndpointId) (q p : Pid) (there : is_local_to p node ≡ true) where
  any-links :
      (pid : Pid) (ls : List Pid)
      → Set.contains p ls ≡ true
      → (pid == q) ≡ true
      → any (is_from q) (map (λ l. (pid, l)) (filter (λ l. is_local_to l node) ls)) ≡ true
  unfolding Set.contains is_local_to
  any-links pid [] c same = absurd (ground arith)
  any-links pid (l ∷ ls) c same = ground (arith, any-links pid ls, c, same, there, pid_beq_iff l p)

  -- A link to the node is among those that fire.
  any-links_with :
      (m : States) → is_linked q p m ≡ true → any (is_from q) (links_with node m) ≡ true
  unfolding links_with get
  any-links_with [] c = absurd (ground arith)
  any-links_with ((pid, s) ∷ m) c = ground (
    arith,
    any-links_with m,
    any-links pid s.links,
    c,
    any-append (is_from q) (map (λ l. (pid, l)) (filter (λ l. is_local_to l node) s.links))
        (links_with node m),
  )

  contains-kept :
      (ls : List Pid) → Set.contains p (filter (λ l. not (is_local_to l node)) ls) ≡ false
  unfolding Set.contains is_local_to
  contains-kept [] = refl
  contains-kept (l ∷ ls) = ground (arith, contains-kept ls, there, pid_beq_iff l p)

  is_linked-forget : (m : States) → is_linked q p (map (λ e. (e.0, forget_in node e.1)) m) ≡ false
  unfolding get forget_in
  is_linked-forget [] = refl
  is_linked-forget ((pid, s) ∷ m) = ground (arith, is_linked-forget m, contains-kept s.links)

  contains_key-forget :
      (m : States) → contains_key q (map (λ e. (e.0, forget_in node e.1)) m) ≡ contains_key q m
  unfolding contains_key
  contains_key-forget [] = refl
  contains_key-forget ((pid, s) ∷ m) = ground (arith, contains_key-forget m)

  forgotten :
      (ms : List (Pid × Pid × ℕ)) (r n : ParticleRegistry)
      → length n.particle_states ≤ length r.particle_states
      → (linked q p r && (is_mortal q r && is_alive q n)) ≡ false
      → Severed q p r (forget_node node (fire_monitors ms n))
        × (length (forget_node node (fire_monitors ms n)).particle_states
            ≤ length r.particle_states)
  unfolding forget_node
  forgotten ms r n le dead = (
    (
      is_linked-forget (fire_monitors ms n).particle_states,
      ground (
        arith,
        dead,
        contains_key-forget (fire_monitors ms n).particle_states,
        states-fire_monitors ms n,
      ),
    ),
    ground (
      arith,
      le,
      states-fire_monitors ms n,
      length-map {B = Pid × ParticleState} (λ e. (e.0, forget_in node e.1))
          (fire_monitors ms n).particle_states,
    ),
  )

  abbrev fire_some :
      List (Pid × Pid) → List (Pid × Pid × ℕ) → ParticleRegistry → Option ParticleRegistry
  fire_some ls ms r = elim (fire_links ls r) [
    | none ↦ none
    | some n ↦ some (forget_node node (fire_monitors ms n))
  ]

  fire_some-Severed :
      (ls : List (Pid × Pid)) (ms : List (Pid × Pid × ℕ)) (r : ParticleRegistry)
      → (linked q p r ≡ true → any (is_from q) ls ≡ true)
      → Returns (Severed q p r) r (fire_some ls ms r)
  fire_some-Severed ls ms r among = elim (Bool-cases (linked q p r && is_mortal q r)) [
    | inl doomed ↦
        let (n, e, gone, le) =
          fire_links-kills q ls r (among (ground (arith, doomed)))
            (ground (arith, doomed, contains_key-get q r.particle_states)) in
        let (cut, small) = forgotten ms r n le (ground (arith, gone)) in
        (forget_node node (fire_monitors ms n), rw (e, fire_some) refl, cut, small)
    | inr spared ↦
        let (n, e, done, le) = fire_links-Returns (λ _. Unit {0}) (λ pid s r e h. tt) ls r tt in
        let (cut, small) = forgotten ms r n le (ground (arith, spared)) in
        (forget_node node (fire_monitors ms n), rw (e, fire_some) refl, cut, small)
  ]

  fire_all-Severed :
      (ls : List (Pid × Pid)) (ms : List (Pid × Pid × ℕ)) (r : ParticleRegistry)
      → (linked q p r ≡ true → any (is_from q) ls ≡ true)
      → Returns (Severed q p r) r (fire_all ls ms node r)
  unfolding fire_all
  fire_all-Severed [] [] r among =
      (r, refl, (ground (arith, among), ground (arith, among)), omega arith)
  fire_all-Severed [] (m ∷ ms) r among = fire_some-Severed [] (m ∷ ms) r among
  fire_all-Severed (l ∷ ls) ms r among = fire_some-Severed (l ∷ ls) ms r among

  -- What a node does when another is lost ends. Afterwards no particle is linked to a particle of the
  -- lost node, and whoever was, and does not trap exits, is dead.
  pub on_node_lost-Severed :
      (r : ParticleRegistry) → Returns (Severed q p r) r (on_node_lost node r)
  unfolding on_node_lost
  on_node_lost-Severed r =
      fire_all-Severed (links_with node r.particle_states) (monitors_with node r.particle_states) r
        (any-links_with r.particle_states)
