-- ===== src/Registry/Sound.antt =====
-- An invariant of a node's whole registry in src/registry.rs, over every history of its operations.
use plasmoid.Prelude.{
  ℕ, ◌+◌, ◌<◌, ◌≡◌, refl, sym, ◌∙◌, String, true, false, Option, none, some, arith, if◌then◌else◌,
  ◌==◌, Option-cases, Bool-cases, inl, inr, u64_mod, nat_eq, string_eq,
}
use plasmoid.Prelude.Map.{
  get, insert, modify, contains_key, contains_key-insert, contains_key-modify, get-modify,
  get-insert,
}
use plasmoid.Prelude.Set
use plasmoid.Pid.{Pid, EndpointId, pid_eq, pid_beq_iff, is_local_to}
use plasmoid.Message.{ExitReason}
use plasmoid.Registry.State.{ParticleRegistry, ParticleState, PolicySet, with_state, fresh_state}
use plasmoid.Registry.Spawn.{
  spawn, spawn_template, insert_particle, claim_name, is_taken, or_default,
}
use plasmoid.Registry.Exit.{exit_once, exit_now}
use plasmoid.Registry.Views.{is_linked, alive-exit_once, deliver_all-same}
use plasmoid.Registry.Cascade.{Returns, Keeps-invariant, exit_now-Returns}
use plasmoid.Registry.Symmetry.{is_alive, linked, LinksAgree, exit_once-LinksAgree}

-- Every particle is of this node, its pid was generated, and the links agree.
pub record IsSound (me : EndpointId) (r : ParticleRegistry) : Type 0 where
  pub links : LinksAgree me r
  pub home : (p : Pid) → is_alive p r ≡ true → p.node ≡ me
  pub generated : (p : Pid) → is_alive p r ≡ true → p.seq < r.pid_gen.next_seq
  pub identity : r.pid_gen.node ≡ me

exit_once-pid_gen :
    (pid : Pid) (s : ParticleState) (reason : ExitReason) (r : ParticleRegistry)
    → (exit_once pid s reason r).1.pid_gen ≡ r.pid_gen
unfolding exit_once
exit_once-pid_gen pid s reason r = rw deliver_all-same refl

exit_once-IsSound :
    (me : EndpointId) (reason : ExitReason) (pid : Pid) (s : ParticleState) (r : ParticleRegistry)
    → get pid r.particle_states ≡ some s
    → IsSound me r
    → IsSound me (exit_once pid s reason r).1
exit_once-IsSound me reason pid s r e h =
    let g = exit_once-pid_gen pid s reason r in
    record {
      links = exit_once-LinksAgree me reason pid s r e h.links;
      home = λ p a. ground (arith, alive-exit_once pid s reason r p, h.home p);
      generated = λ p a. rw g (ground (arith, alive-exit_once pid s reason r p, h.generated p));
      identity = rw g h.identity;
    }

-- An exit and its whole cascade end, and they keep the registry sound: its particles are of the
-- node under generated pids, links between them are in both sets, and none leads to a dead one.
pub exit_now-IsSound :
    (me : EndpointId) (pid : Pid) (reason : ExitReason) (r : ParticleRegistry)
    → IsSound me r
    → Returns (IsSound me) r (exit_now pid reason r)
exit_now-IsSound me pid reason r h =
    exit_now-Returns (Keeps-invariant (IsSound me) reason (exit_once-IsSound me reason)) pid r tt h

-- An update of a state that leaves its links alone.
pub keeping-links :
    (me : EndpointId) (pid : Pid) (f : ParticleState → ParticleState) (r : ParticleRegistry)
    → ((s : ParticleState) → (f s).links ≡ s.links)
    → IsSound me r
    → IsSound me (with_state pid f r)
unfolding with_state
keeping-links me pid f r same h = record {
  links = record {
    both_ways = λ q p l a. ground (arith, links q p, links p q, alive p, h.links.both_ways q p);
    to_living = λ q p l a. ground (arith, links q p, alive p, h.links.to_living q p);
  };
  home = λ p a. ground (arith, alive p, h.home p);
  generated = λ p a. ground (arith, alive p, h.generated p);
  identity = h.identity;
}
  where
    alive : (q : Pid) → contains_key q (modify pid f r.particle_states) ≡ is_alive q r
    alive q = contains_key-modify pid q f r.particle_states

    links : (q p : Pid) → is_linked q p (modify pid f r.particle_states) ≡ linked q p r
    links q p = elim (Option-cases (get q r.particle_states)) [
      | inl e ↦ ground (arith, get-modify pid q f r.particle_states, e)
      | inr (s, e) ↦ ground (arith, get-modify pid q f r.particle_states, e, same s)
    ]

-- A change of what is neither a state nor the generator.
pub same_states-IsSound :
    (me : EndpointId) (r r' : ParticleRegistry)
    → r'.particle_states ≡ r.particle_states
    → r'.pid_gen ≡ r.pid_gen
    → IsSound me r
    → IsSound me r'
same_states-IsSound me r r' e g h = record {
  links = record {
    both_ways = λ q p. rw e (h.links.both_ways q p);
    to_living = λ q p. rw e (h.links.to_living q p);
  };
  home = λ p. rw e (h.home p);
  generated = λ p. rw (e, g) (h.generated p);
  identity = rw g h.identity;
}

-- A change of the links alone.
pub relinked-IsSound :
    (me : EndpointId) (r r' : ParticleRegistry)
    → LinksAgree me r'
    → ((p : Pid) → is_alive p r' ≡ is_alive p r)
    → r'.pid_gen ≡ r.pid_gen
    → IsSound me r
    → IsSound me r'
relinked-IsSound me r r' l alive g h = record {
  links = l;
  home = λ p a. h.home p (sym (alive p) ∙ a);
  generated = λ p a. rw g (h.generated p (sym (alive p) ∙ a));
  identity = rw g h.identity;
}

insert_particle-IsSound :
    (me : EndpointId) (component : String) (name : Option String) (caps : PolicySet)
    (r : ParticleRegistry)
    → r.pid_gen.next_seq + 1 < u64_mod
    → IsSound me r
    → IsSound me (insert_particle component name caps r)
unfolding insert_particle Set.contains is_local_to
insert_particle-IsSound me component name caps r room h = record {
  links = record {
    both_ways = λ q p l a. ground (
      arith,
      links q p,
      links p q,
      alive p,
      h.links.both_ways q p,
      h.links.to_living q p,
      pid_beq_iff pid p,
      h.identity,
      unused,
    );
    to_living = λ q p l a. ground (arith, links q p, alive p, h.links.to_living q p);
  };
  home = λ p a. ground (arith, alive p, h.home p, pid_beq_iff pid p, h.identity);
  generated = λ p a. ground (arith, alive p, h.generated p, pid_beq_iff pid p, room);
  identity = h.identity;
}
  where
    pid : Pid
    pid = record { node = r.pid_gen.node; seq = r.pid_gen.next_seq }

    alive :
        (q : Pid)
        → contains_key q (insert pid (fresh_state r.next_mailbox) r.particle_states)
          ≡ (if pid == q then true else is_alive q r)
    alive q = contains_key-insert pid q (fresh_state r.next_mailbox) r.particle_states

    links :
        (q p : Pid)
        → is_linked q p (insert pid (fresh_state r.next_mailbox) r.particle_states)
          ≡ (if pid == q then false else linked q p r)
    links q p = ground (arith, get-insert pid q (fresh_state r.next_mailbox) r.particle_states)

    unused : is_alive pid r ≡ false
    unused = ground (arith, h.generated pid)

claim_name-IsSound :
    (me : EndpointId) (name : Option String) (pid : Pid) (mailbox : ℕ) (r : ParticleRegistry)
    → is_taken name r ≡ false
    → IsSound me r
    → IsSound me (claim_name name pid mailbox r).1
unfolding claim_name is_taken
claim_name-IsSound me none pid mailbox r free h = h
claim_name-IsSound me (some n) pid mailbox r free h =
    rw free (same_states-IsSound me r _ refl refl h)

is_taken-insert_particle :
    (component : String) (name other : Option String) (caps : PolicySet) (r : ParticleRegistry)
    → is_taken other (insert_particle component name caps r) ≡ is_taken other r
unfolding insert_particle is_taken
is_taken-insert_particle component name none caps r = refl
is_taken-insert_particle component name (some n) caps r = refl

pub spawn-IsSound :
    (me : EndpointId) (component : String) (name : Option String) (caps : Option PolicySet)
    (r : ParticleRegistry)
    → r.pid_gen.next_seq + 1 < u64_mod
    → IsSound me r
    → IsSound me (spawn component name caps (λ q. q) r).1
unfolding spawn
spawn-IsSound me component name caps r room h = elim (Bool-cases (is_taken name r)) [
  | inl taken ↦ rw taken h
  | inr free ↦ elim (Option-cases (get component r.components)) [
    | inl e ↦ rw (free, e, spawn_template) h
    | inr (defaults, e) ↦
        rw (free, e, spawn_template)
          (claim_name-IsSound me name _ r.next_mailbox
            (insert_particle component name (or_default caps defaults) r)
            (is_taken-insert_particle component name name (or_default caps defaults) r ∙ free)
            (insert_particle-IsSound me component name (or_default caps defaults) r room h))
  ]
]
