-- ===== src/Registry/Views.antt =====
-- What the blocks of `exit_particle` in src/registry.rs do to who is alive and who is linked.
use plasmoid.Prelude.{
  ℕ, ◌<◌, ◌≡◌, refl, ◌∙◌, Bool, false, not, ◌&&◌, Option, none, some, List, [], ◌∷◌, arith,
  if◌then◌else◌, ◌==◌, Option-cases, inl, inr, length, nat_eq, string_eq,
}
use plasmoid.Prelude.Map.{
  Map, get, remove, modify, contains_key, contains_key-remove, contains_key-modify, get-modify,
  get-remove, length-modify, length-remove-lt,
}
use plasmoid.Prelude.Set
use plasmoid.Prelude.Set.{contains-remove}
use plasmoid.Pid.{Pid, pid_eq, pid_beq_iff}
use plasmoid.Message.{ExitReason, SystemMessage, is_abnormal}
use plasmoid.Mailbox.{push_system}
use plasmoid.Registry.State.{ParticleRegistry, ParticleState, with_mailbox}
use plasmoid.Registry.Relate.{drop_link, drop_monitor}
use plasmoid.Registry.Exit.{
  Cut, cut_peer, cut_links, cut_watcher, cut_watchers, deliver_all, exit_once,
}

abbrev pub States : Type 0
States = Map Pid ParticleState

abbrev pub links_to : Pid → Option ParticleState → Bool
links_to p none = false
links_to p (some s) = Set.contains p s.links

-- The link set of `q` holds `p`.
abbrev pub is_linked : Pid → Pid → States → Bool
is_linked q p m = links_to p (get q m)

-- A live particle that does not trap exits.
abbrev pub mortal : Option ParticleState → Bool
mortal none = false
mortal (some s) = not s.trap_exit

pub mortal-modify :
    (pid q : Pid) (f : ParticleState → ParticleState) (m : States)
    → ((s : ParticleState) → (f s).trap_exit ≡ s.trap_exit)
    → mortal (get q (modify pid f m)) ≡ mortal (get q m)
mortal-modify pid q f m same = elim (Option-cases (get q m)) [
  | inl e ↦ ground (arith, get-modify pid q f m, e)
  | inr (s, e) ↦ ground (arith, get-modify pid q f m, e, same s)
]

pub is_linked-drop_link :
    (pid linked q p : Pid) (m : States)
    → is_linked q p (modify linked (drop_link pid) m)
      ≡ (is_linked q p m && not ((linked == q) && (pid == p)))
is_linked-drop_link pid linked q p m = elim (Option-cases (get q m)) [
  | inl e ↦ ground (arith, get-modify linked q (drop_link pid) m, e)
  | inr (s, e) ↦
      ground (arith, get-modify linked q (drop_link pid) m, e, contains-remove pid p s.links)
]

is_linked-drop_monitor :
    (ref_id : ℕ) (w q p : Pid) (m : States)
    → is_linked q p (modify w (drop_monitor ref_id) m) ≡ is_linked q p m
is_linked-drop_monitor ref_id w q p m = elim (Option-cases (get q m)) [
  | inl e ↦ ground (arith, get-modify w q (drop_monitor ref_id) m, e)
  | inr (s, e) ↦ ground (arith, get-modify w q (drop_monitor ref_id) m, e)
]

module _ (pid : Pid) (abnormal : Bool) where
  is_linked-cut_peer :
      (linked q p : Pid) (c : Cut)
      → is_linked q p (cut_peer pid linked abnormal (get linked c.states) c).states
        ≡ (is_linked q p c.states && not ((linked == q) && (pid == p)))
  is_linked-cut_peer linked q p c = elim (Option-cases (get linked c.states)) [
    | inl e ↦ rw e (ground (arith, e, pid_beq_iff linked q))
    | inr (s, e) ↦ rw e (is_linked-drop_link pid linked q p c.states)
  ]

  contains_key-cut_peer :
      (linked q : Pid) (c : Cut)
      → contains_key q (cut_peer pid linked abnormal (get linked c.states) c).states
        ≡ contains_key q c.states
  contains_key-cut_peer linked q c = elim (Option-cases (get linked c.states)) [
    | inl e ↦ rw e
    | inr (s, e) ↦ rw e (contains_key-modify linked q (drop_link pid) c.states)
  ]

  length-cut_peer :
      (linked : Pid) (c : Cut)
      → length (cut_peer pid linked abnormal (get linked c.states) c).states ≡ length c.states
  length-cut_peer linked c = elim (Option-cases (get linked c.states)) [
    | inl e ↦ rw e
    | inr (s, e) ↦ rw e (length-modify linked (drop_link pid) c.states)
  ]

  pub is_linked-cut_links :
      (ls : List Pid) (q p : Pid) (c : Cut)
      → is_linked q p (cut_links pid abnormal ls c).states
        ≡ (is_linked q p c.states && not ((pid == p) && Set.contains q ls))
  unfolding cut_links Set.contains
  is_linked-cut_links [] q p c = ground arith
  is_linked-cut_links (linked ∷ ls) q p c = ground (
    arith,
    is_linked-cut_links ls q p (cut_peer pid linked abnormal (get linked c.states) c),
    is_linked-cut_peer linked q p c,
  )

  pub contains_key-cut_links :
      (ls : List Pid) (q : Pid) (c : Cut)
      → contains_key q (cut_links pid abnormal ls c).states ≡ contains_key q c.states
  unfolding cut_links
  contains_key-cut_links [] q c = refl
  contains_key-cut_links (linked ∷ ls) q c =
      contains_key-cut_links ls q _ ∙ contains_key-cut_peer linked q c

  pub length-cut_links :
      (ls : List Pid) (c : Cut) → length (cut_links pid abnormal ls c).states ≡ length c.states
  unfolding cut_links
  length-cut_links [] c = refl
  length-cut_links (linked ∷ ls) c = length-cut_links ls _ ∙ length-cut_peer linked c

abbrev Cutting : Type 0
Cutting = States × List (ℕ × ℕ)

-- The loop over the watchers changes neither who is alive, nor links, nor the size.
pub record SameLinks (m n : States) : Type 0 where
  pub linked : (q p : Pid) → is_linked q p m ≡ is_linked q p n
  pub alive : (q : Pid) → contains_key q m ≡ contains_key q n
  pub size : length m ≡ length n
  pub mortals : (q : Pid) → mortal (get q m) ≡ mortal (get q n)

pub cut_watchers-SameLinks :
    (ws : List (Pid × ℕ)) (c : Cutting) → SameLinks (cut_watchers ws c).0 c.0
unfolding cut_watchers
cut_watchers-SameLinks [] c = record {
  linked = λ q p. refl;
  alive = λ q. refl;
  size = refl;
  mortals = λ q. refl;
}
cut_watchers-SameLinks ((w, ref_id) ∷ ws) c =
    let rest = cut_watchers-SameLinks ws (cut_watcher w ref_id (get w c.0) c) in
    record {
      linked = λ q p. rest.linked q p ∙ here.linked q p;
      alive = λ q. rest.alive q ∙ here.alive q;
      size = rest.size ∙ here.size;
      mortals = λ q. rest.mortals q ∙ here.mortals q;
    }
  where
    here : SameLinks (cut_watcher w ref_id (get w c.0) c).0 c.0
    here = elim (Option-cases (get w c.0)) [
      | inl e ↦
          rw e
            (record { linked = λ q p. refl; alive = λ q. refl; size = refl; mortals = λ q. refl })
      | inr (s, e) ↦ rw e (record {
        linked = λ q p. is_linked-drop_monitor ref_id w q p c.0;
        alive = λ q. contains_key-modify w q (drop_monitor ref_id) c.0;
        size = length-modify w (drop_monitor ref_id) c.0;
        mortals = λ q. mortal-modify w q (drop_monitor ref_id) c.0 (λ t. refl);
      })
    ]

-- Delivering messages changes the mailboxes only.
pub deliver_all-same :
    (ds : List (ℕ × SystemMessage)) (r : ParticleRegistry)
    → deliver_all ds r ≡ record r { mailboxes = (deliver_all ds r).mailboxes }
unfolding deliver_all
deliver_all-same [] r = refl
deliver_all-same ((m, msg) ∷ ds) r = deliver_all-same ds (with_mailbox m (push_system msg) r)

module _ (pid : Pid) (s : ParticleState) (reason : ExitReason) (r : ParticleRegistry) where
  -- The states after the removal and both loops.
  pub exit_once-states :
      SameLinks
        (exit_once pid s reason r).1.particle_states
        (cut_links pid
          (is_abnormal reason)
          s.links
          (record { states = remove pid r.particle_states; deliveries = []; cascade = [] })).states
  unfolding exit_once
  exit_once-states = rw deliver_all-same (cut_watchers-SameLinks s.monitored_by _)

  -- Of the particles only the one that exits is no longer alive.
  pub alive-exit_once :
      (q : Pid)
      → contains_key q (exit_once pid s reason r).1.particle_states
        ≡ (if pid == q then false else contains_key q r.particle_states)
  alive-exit_once q =
      exit_once-states.alive q
      ∙ (contains_key-cut_links pid (is_abnormal reason) s.links q _
          ∙ contains_key-remove pid q r.particle_states)

  -- Its own links go, and so do the links to it of those that it is linked to.
  pub is_linked-exit_once :
      (q p : Pid)
      → is_linked q p (exit_once pid s reason r).1.particle_states ≡ (
          not (pid == q)
          && (is_linked q p r.particle_states && not ((pid == p) && Set.contains q s.links)))
  is_linked-exit_once q p =
      exit_once-states.linked q p
      ∙ (is_linked-cut_links pid (is_abnormal reason) s.links q p _
          ∙ ground (arith, get-remove pid q r.particle_states))

  pub length-exit_once :
      get pid r.particle_states ≡ some s
      → length (exit_once pid s reason r).1.particle_states < length r.particle_states
  length-exit_once e = omega (
    arith,
    exit_once-states.size,
    length-cut_links pid (is_abnormal reason) s.links
        (record { states = remove pid r.particle_states; deliveries = []; cascade = [] }),
    length-remove-lt pid r.particle_states s e,
  )
