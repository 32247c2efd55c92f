-- ===== src/Registry/Symmetry.antt =====
-- The links between the particles of a node in src/registry.rs: both ways, and to the living.
use plasmoid.Prelude.{
  ◌≡◌, ◌∙◌, Bool, true, false, not, ◌&&◌, ◌||◌, some, arith, ◌==◌, Option-cases, Bool-cases, inl,
  inr,
}
use plasmoid.Prelude.Map.{
  get, modify, contains_key, contains_key-get, contains_key-modify, get-modify,
}
use plasmoid.Prelude.Set.{contains-insert}
use plasmoid.Pid.{Pid, EndpointId, pid_eq, pid_beq_iff, is_local_to}
use plasmoid.Message.{ExitReason}
use plasmoid.Registry.State.{ParticleRegistry, ParticleState}
use plasmoid.Registry.Relate.{add_link, drop_link, link, unlink, link_remote, unlink_remote}
use plasmoid.Registry.Exit.{exit_once, exit_now}
use plasmoid.Registry.Views.{
  States, is_linked, is_linked-exit_once, alive-exit_once, is_linked-drop_link,
}
use plasmoid.Registry.Cascade.{Returns, Keeps-invariant, exit_now-Returns}

abbrev pub is_alive : Pid → ParticleRegistry → Bool
is_alive p r = contains_key p r.particle_states

abbrev pub linked : Pid → Pid → ParticleRegistry → Bool
linked q p r = is_linked q p r.particle_states

-- `me` is the node's identity. A link between two particles of the node is in both sets, and no
-- particle is linked to a dead one of the node; a link to another node is held at this end alone.
pub record LinksAgree (me : EndpointId) (r : ParticleRegistry) : Type 0 where
  pub both_ways : (q p : Pid) → linked q p r ≡ true → is_alive p r ≡ true → linked p q r ≡ true
  pub to_living : (q p : Pid) → linked q p r ≡ true → is_local_to p me ≡ true → is_alive p r ≡ true

pub is_linked-alive : (q p : Pid) (m : States) → is_linked q p m ≡ true → contains_key q m ≡ true
is_linked-alive q p m h = elim (Option-cases (get q m)) [
  | inl e ↦ ground (arith, e)
  | inr (s, e) ↦ ground (arith, e, contains_key-get q m)
]

pub exit_once-LinksAgree :
    (me : EndpointId) (reason : ExitReason) (pid : Pid) (s : ParticleState) (r : ParticleRegistry)
    → get pid r.particle_states ≡ some s
    → LinksAgree me r
    → LinksAgree me (exit_once pid s reason r).1
exit_once-LinksAgree me reason pid s r e h = record {
  both_ways = λ q p l a. ground (
    arith,
    is_linked-exit_once pid s reason r q p,
    is_linked-exit_once pid s reason r p q,
    alive-exit_once pid s reason r p,
    h.both_ways q p,
    pid_beq_iff pid p,
    pid_beq_iff pid q,
  );
  to_living = λ q p l a. ground (
    arith,
    is_linked-exit_once pid s reason r q p,
    alive-exit_once pid s reason r p,
    h.both_ways q p,
    h.to_living q p,
    pid_beq_iff pid p,
    pid_beq_iff pid q,
    e,
  );
}

-- An exit and its whole cascade keep the links of the node in order: they end, and after them
-- links between its particles are still in both sets, and none leads to a dead one.
pub exit_now-LinksAgree :
    (me : EndpointId) (pid : Pid) (reason : ExitReason) (r : ParticleRegistry)
    → LinksAgree me r
    → Returns (LinksAgree me) r (exit_now pid reason r)
exit_now-LinksAgree me pid reason r h =
    exit_now-Returns (Keeps-invariant (LinksAgree me) reason (exit_once-LinksAgree me reason)) pid r
      tt h

-- The links after a change, where the living stay the same: those of `more` are new, and those
-- of `less` are gone.
record Changes (m n : States) (more less : Pid → Pid → Bool) : Type 0 where
  links : (q p : Pid) → is_linked q p n ≡ ((is_linked q p m || more q p) && not (less q p))
  alive : (q : Pid) → contains_key q n ≡ contains_key q m

is_linked-add_link :
    (a b q p : Pid) (m : States)
    → is_linked q p (modify a (add_link b) m)
      ≡ (is_linked q p m || ((a == q) && ((b == p) && contains_key a m)))
is_linked-add_link a b q p m = elim (Option-cases (get q m)) [
  | inl e ↦ ground (arith, get-modify a q (add_link b) m, e, contains_key-get a m, pid_beq_iff a q)
  | inr (s, e) ↦ ground (
    arith,
    get-modify a q (add_link b) m,
    e,
    contains-insert b p s.links,
    contains_key-get a m,
    pid_beq_iff a q,
  )
]

module _ (a b : Pid) (m : States) where
  abbrev joins : Pid → Pid → Bool
  joins q p = ((a == q) && (b == p)) || ((b == q) && (a == p))

  abbrev never : Pid → Pid → Bool
  never q p = false

  link-Changes :
      contains_key a m ≡ true
      → contains_key b m ≡ true
      → Changes m (modify b (add_link a) (modify a (add_link b) m)) joins never
  link-Changes x y = record {
    links = λ q p. ground (
      arith,
      is_linked-add_link b a q p (modify a (add_link b) m),
      is_linked-add_link a b q p m,
      contains_key-modify a b (add_link b) m,
    );
    alive = λ q. contains_key-modify b q (add_link a) _ ∙ contains_key-modify a q (add_link b) m;
  }

  unlink-Changes : Changes m (modify b (drop_link a) (modify a (drop_link b) m)) never joins
  unlink-Changes = record {
    links = λ q p. ground (
      arith,
      is_linked-drop_link a b q p (modify a (drop_link b) m),
      is_linked-drop_link b a q p m,
    );
    alive = λ q. contains_key-modify b q (drop_link a) _ ∙ contains_key-modify a q (drop_link b) m;
  }

module _ (me : EndpointId) (a b : Pid) (r : ParticleRegistry) (h : LinksAgree me r) where
  joined-LinksAgree :
      (r' : ParticleRegistry)
      → is_alive a r ≡ true
      → is_alive b r ≡ true
      → Changes r.particle_states r'.particle_states
          (joins a b r.particle_states)
          (never a b r.particle_states)
      → LinksAgree me r'
  joined-LinksAgree r' x y c = record {
    both_ways = λ q p l z. ground (arith, c.links q p, c.links p q, c.alive p, h.both_ways q p);
    to_living = λ q p l z.
        ground
          (arith, c.links q p, c.alive p, h.to_living q p, pid_beq_iff a p, pid_beq_iff b p, x, y);
  }

  -- `link` refuses a pair with a dead particle, and keeps the links of the node in order.
  pub link-LinksAgree : LinksAgree me (link a b r).1
  unfolding link
  link-LinksAgree = elim (Bool-cases (is_alive a r)) [
    | inr gone ↦ rw gone h
    | inl there ↦ elim (Bool-cases (is_alive b r)) [
      | inr gone ↦ rw (there, gone) h
      | inl too ↦
          rw (there, too)
            (joined-LinksAgree _ there too (link-Changes a b r.particle_states there too))
    ]
  ]

  pub unlink-LinksAgree : LinksAgree me (unlink a b r)
  unfolding unlink
  unlink-LinksAgree =
      let c = unlink-Changes a b r.particle_states in
      record {
        both_ways = λ q p l z. ground (arith, c.links q p, c.links p q, c.alive p, h.both_ways q p);
        to_living = λ q p l z. ground (arith, c.links q p, c.alive p, h.to_living q p);
      }

  -- A link to a particle of another node is recorded at this end alone.
  pub link_remote-LinksAgree :
      is_local_to b me ≡ false → is_alive b r ≡ false → LinksAgree me (link_remote a b r)
  unfolding link_remote
  link_remote-LinksAgree away dead = record {
    both_ways = λ q p l z. ground (
      arith,
      is_linked-add_link a b q p r.particle_states,
      is_linked-add_link a b p q r.particle_states,
      contains_key-modify a p (add_link b) r.particle_states,
      h.both_ways q p,
      dead,
      pid_beq_iff b p,
    );
    to_living = λ q p l z. ground (
      arith,
      is_linked-add_link a b q p r.particle_states,
      contains_key-modify a p (add_link b) r.particle_states,
      h.to_living q p,
      away,
      pid_beq_iff b p,
    );
  }

  pub unlink_remote-LinksAgree : is_alive b r ≡ false → LinksAgree me (unlink_remote a b r)
  unfolding unlink_remote
  unlink_remote-LinksAgree dead = record {
    both_ways = λ q p l z. ground (
      arith,
      is_linked-drop_link b a q p r.particle_states,
      is_linked-drop_link b a p q r.particle_states,
      contains_key-modify a p (drop_link b) r.particle_states,
      h.both_ways q p,
      dead,
      pid_beq_iff b q,
      is_linked-alive q p r.particle_states,
    );
    to_living = λ q p l z. ground (
      arith,
      is_linked-drop_link b a q p r.particle_states,
      contains_key-modify a p (drop_link b) r.particle_states,
      h.to_living q p,
    );
  }
