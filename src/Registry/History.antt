-- ===== src/Registry/History.antt =====
-- The histories of a node's registry in src/registry.rs, as steps that its methods make.
use plasmoid.Prelude.{
  some-injective, ℕ, ◌+◌, ◌<◌, ◌≡◌, refl, subst, String, Bool, false, Option, none, some, arith,
  ◌==◌, sym, ◌∙◌, Bool-cases, inl, inr, u64_mod, string_eq, nat_eq,
}
use plasmoid.Prelude.Map.{get, contains_key, modify, contains_key-modify}
use plasmoid.Pid.{Pid, EndpointId, pid_eq, is_local_to, pid_generator}
use plasmoid.Message.{ExitReason, SystemMessage}
use plasmoid.Registry.State.{
  ParticleRegistry, PolicySet, ParticleState, with_state, with_mailbox, new,
}
use plasmoid.Registry.Spawn.{spawn, register_component}
use plasmoid.Registry.Names.{register_name, unregister_name, unregister_held}
use plasmoid.Registry.Send.{send_system, system_to, send_to_pid, send_tagged_to_pid, send_with}
use plasmoid.Mailbox.{Bytes, Mailbox, SendResult, push_data, push_tagged}
use plasmoid.Registry.Relate.{
  link, unlink, unlink_remote, monitor, take_ref, add_link, drop_link, link_remote, set_trap_exit,
  monitor_with_ref, demonitor, add_monitor, add_watcher, drop_monitor, drop_watcher, forget_watcher,
  monitored, forget_node,
}
use plasmoid.Registry.Exit.{exit_now}
use plasmoid.Registry.Symmetry.{
  is_alive, link-LinksAgree, unlink-LinksAgree, link_remote-LinksAgree, unlink_remote-LinksAgree,
}
use plasmoid.Registry.Forget.{forget_node-IsSound}
use plasmoid.Registry.Sound.{
  IsSound, keeping-links, same_states-IsSound, relinked-IsSound, spawn-IsSound, exit_now-IsSound,
}

-- One method call on the registry of the node `me`.
pub data Step (me : EndpointId) (r r' : ParticleRegistry) : Type 0 where
  registers_component :
      (name : String) (caps : PolicySet) → r' ≡ register_component name caps r → Step me r r'
  spawns :
      (component : String) (name : Option String) (caps : Option PolicySet)
      → r.pid_gen.next_seq + 1 < u64_mod
      → r' ≡ (spawn component name caps (λ q. q) r).1
      → Step me r r'
  links : (a b : Pid) → r' ≡ (link a b r).1 → Step me r r'
  unlinks : (a b : Pid) → r' ≡ unlink a b r → Step me r r'
  links_remote : (a b : Pid) → is_local_to b me ≡ false → r' ≡ link_remote a b r → Step me r r'
  monitors : (w t : Pid) (ref_id : ℕ) → r' ≡ monitor_with_ref w t ref_id r → Step me r r'
  counts_monitor : (w t : Pid) → r' ≡ (monitor w t r).1 → Step me r r'
  unlinks_remote : (a b : Pid) → is_local_to b me ≡ false → r' ≡ unlink_remote a b r → Step me r r'
  sends : (p : Pid) (msg : SystemMessage) → r' ≡ send_system p msg r → Step me r r'
  sends_data : (p : Pid) (msg : Bytes) → r' ≡ (send_to_pid p msg r).1 → Step me r r'
  sends_tagged :
      (p : Pid) (ref_id : ℕ) (msg : Bytes)
      → r' ≡ (send_tagged_to_pid p ref_id msg r).1
      → Step me r r'
  demonitors : (w : Pid) (ref_id : ℕ) → r' ≡ demonitor w ref_id r → Step me r r'
  traps : (p : Pid) (enabled : Bool) → r' ≡ set_trap_exit p enabled r → Step me r r'
  registers : (p : Pid) (name : String) → r' ≡ (register_name p name r).1 → Step me r r'
  unregisters : (p : Pid) (name : String) → r' ≡ (unregister_name p name r).1 → Step me r r'
  forgets : (node : EndpointId) → (me == node) ≡ false → r' ≡ forget_node node r → Step me r r'
  exits : (p : Pid) (reason : ExitReason) → exit_now p reason r ≡ some r' → Step me r r'

pub data Reach (me : EndpointId) (r : ParticleRegistry) : ParticleRegistry → Type 0 where
  here : Reach me r r
  then_step : {s t : ParticleRegistry} → Reach me r s → Step me s t → Reach me r t

module _ (me : EndpointId) (r : ParticleRegistry) (h : IsSound me r) where
  demonitor-IsSound : (w : Pid) (ref_id : ℕ) → IsSound me (demonitor w ref_id r)
  unfolding demonitor
  demonitor-IsSound w ref_id =
      forget (monitored ref_id (get w r.particle_states))
        (keeping-links me w (drop_monitor ref_id) r (λ s. refl) h)
    where
      forget :
          (o : Option Pid)
          → IsSound me (with_state w (drop_monitor ref_id) r)
          → IsSound me (forget_watcher w ref_id o (with_state w (drop_monitor ref_id) r))
      forget none k = k
      forget (some t) k = keeping-links me t (drop_watcher w ref_id) _ (λ s. refl) k

  register_name-IsSound : (p : Pid) (name : String) → IsSound me (register_name p name r).1
  unfolding register_name
  register_name-IsSound p name = elim (Bool-cases (contains_key name r.names)) [
    | inl e ↦ rw e h
    | inr e ↦ rw e (same_states-IsSound me r _ refl refl h)
  ]

  unregister_name-IsSound : (p : Pid) (name : String) → IsSound me (unregister_name p name r).1
  unfolding unregister_name
  unregister_name-IsSound p name = held_by (get name r.names)
    where
      held_by : (o : Option Pid) → IsSound me (unregister_held o p name r).1
      held_by none = h
      held_by (some q) = elim (Bool-cases (q == p)) [
        | inl e ↦ rw e (same_states-IsSound me r _ refl refl h)
        | inr e ↦ rw e h
      ]

  link-IsSound : (a b : Pid) → IsSound me (link a b r).1
  unfolding link
  link-IsSound a b = relinked-IsSound me r _ (link-LinksAgree me a b r h.links) (λ p. alive p) gen h
    where
      alive : (p : Pid) → is_alive p (link a b r).1 ≡ is_alive p r
      alive p = ground (
        arith,
        contains_key-modify b p (add_link a) (modify a (add_link b) r.particle_states),
        contains_key-modify a p (add_link b) r.particle_states,
      )

      gen : (link a b r).1.pid_gen ≡ r.pid_gen
      gen = ground arith

  unlink-IsSound : (a b : Pid) → IsSound me (unlink a b r)
  unfolding unlink
  unlink-IsSound a b =
      relinked-IsSound me r _ (unlink-LinksAgree me a b r h.links)
        (λ p. contains_key-modify b p (drop_link a) _ ∙ contains_key-modify a p (drop_link b) _)
        refl h

  -- A particle of another node is none of this one's.
  away-dead : (b : Pid) → is_local_to b me ≡ false → is_alive b r ≡ false
  unfolding is_local_to
  away-dead b away = elim (Bool-cases (is_alive b r)) [
    | inl there ↦ ground (arith, h.home b there)
    | inr gone ↦ gone
  ]

  link_remote-IsSound : (a b : Pid) → is_local_to b me ≡ false → IsSound me (link_remote a b r)
  unfolding link_remote
  link_remote-IsSound a b away =
      relinked-IsSound me r _ (link_remote-LinksAgree me a b r h.links away (away-dead b away))
        (λ p. contains_key-modify a p (add_link b) _) refl h

  unlink_remote-IsSound : (a b : Pid) → is_local_to b me ≡ false → IsSound me (unlink_remote a b r)
  unfolding unlink_remote
  unlink_remote-IsSound a b away =
      relinked-IsSound me r _ (unlink_remote-LinksAgree me a b r h.links (away-dead b away))
        (λ p. contains_key-modify a p (drop_link b) _) refl h

  monitor_with_ref-IsSound : (w t : Pid) (ref_id : ℕ) → IsSound me (monitor_with_ref w t ref_id r)
  unfolding monitor_with_ref
  monitor_with_ref-IsSound w t ref_id =
      keeping-links me t (add_watcher w ref_id) _ (λ s. refl)
        (keeping-links me w (add_monitor ref_id t) r (λ s. refl) h)

  set_trap_exit-IsSound : (p : Pid) (enabled : Bool) → IsSound me (set_trap_exit p enabled r)
  unfolding set_trap_exit
  set_trap_exit-IsSound p enabled = keeping-links me p _ r (λ s. refl) h

  exit_now-some-IsSound :
      (p : Pid) (reason : ExitReason) (r' : ParticleRegistry)
      → exit_now p reason r ≡ some r'
      → IsSound me r'
  exit_now-some-IsSound p reason r' e =
      let (s, e', k, le) = exit_now-IsSound me p reason r h in
      subst (IsSound me) (some-injective _ _ (sym e' ∙ e)) k

send_system-IsSound :
    (me : EndpointId) (p : Pid) (msg : SystemMessage) (r : ParticleRegistry)
    → IsSound me r
    → IsSound me (send_system p msg r)
unfolding send_system
send_system-IsSound me p msg r h = told (get p r.particle_states)
  where
    told : (o : Option ParticleState) → IsSound me (system_to o msg r)
    told none = h
    told (some s) = same_states-IsSound me r _ refl refl h

send_with-IsSound :
    (me : EndpointId) (o : Option ParticleState) (push : Mailbox → SendResult × Mailbox)
    (r : ParticleRegistry)
    → IsSound me r
    → IsSound me (send_with o push r).1
unfolding with_mailbox
send_with-IsSound me none push r h = h
send_with-IsSound me (some s) push r h = same_states-IsSound me r _ refl refl h

send_to_pid-IsSound :
    (me : EndpointId) (p : Pid) (msg : Bytes) (r : ParticleRegistry)
    → IsSound me r
    → IsSound me (send_to_pid p msg r).1
unfolding send_to_pid
send_to_pid-IsSound me p msg r h =
    send_with-IsSound me (get p r.particle_states) (push_data msg) r h

send_tagged_to_pid-IsSound :
    (me : EndpointId) (p : Pid) (ref_id : ℕ) (msg : Bytes) (r : ParticleRegistry)
    → IsSound me r
    → IsSound me (send_tagged_to_pid p ref_id msg r).1
unfolding send_tagged_to_pid
send_tagged_to_pid-IsSound me p ref_id msg r h =
    send_with-IsSound me (get p r.particle_states) (push_tagged ref_id msg) r h

monitor-IsSound :
    (me : EndpointId) (w t : Pid) (r : ParticleRegistry)
    → IsSound me r
    → IsSound me (monitor w t r).1
unfolding monitor
monitor-IsSound me w t r h =
    let taken = same_states-IsSound me r (take_ref r) refl refl h in
    let watched = keeping-links me t (add_watcher w r.next_ref) (take_ref r) (λ s. refl) taken in
    elim (Bool-cases (is_alive t r)) [
      | inr gone ↦ rw gone (send_system-IsSound me w _ (take_ref r) taken)
      | inl there ↦ elim (Bool-cases (is_alive w r)) [
        | inr gone ↦ rw (there, gone) watched
        | inl too ↦
            rw (there, too) (keeping-links me w (add_monitor r.next_ref t) _ (λ s. refl) watched)
      ]
    ]

pub Step-IsSound :
    (me : EndpointId) (r r' : ParticleRegistry) → Step me r r' → IsSound me r → IsSound me r'
unfolding register_component
Step-IsSound me r r' (registers_component name caps e) h =
    rw e (same_states-IsSound me r _ refl refl h)
Step-IsSound me r r' (spawns component name caps room e) h =
    rw e (spawn-IsSound me component name caps r room h)
Step-IsSound me r r' (links a b e) h = rw e (link-IsSound me r h a b)
Step-IsSound me r r' (unlinks a b e) h = rw e (unlink-IsSound me r h a b)
Step-IsSound me r r' (links_remote a b away e) h = rw e (link_remote-IsSound me r h a b away)
Step-IsSound me r r' (unlinks_remote a b away e) h = rw e (unlink_remote-IsSound me r h a b away)
Step-IsSound me r r' (monitors w t ref_id e) h = rw e (monitor_with_ref-IsSound me r h w t ref_id)
Step-IsSound me r r' (counts_monitor w t e) h = rw e (monitor-IsSound me w t r h)
Step-IsSound me r r' (demonitors w ref_id e) h = rw e (demonitor-IsSound me r h w ref_id)
Step-IsSound me r r' (traps p enabled e) h = rw e (set_trap_exit-IsSound me r h p enabled)
Step-IsSound me r r' (registers p name e) h = rw e (register_name-IsSound me r h p name)
Step-IsSound me r r' (unregisters p name e) h = rw e (unregister_name-IsSound me r h p name)
Step-IsSound me r r' (sends p msg e) h = rw e (send_system-IsSound me p msg r h)
Step-IsSound me r r' (sends_data p msg e) h = rw e (send_to_pid-IsSound me p msg r h)
Step-IsSound me r r' (sends_tagged p ref_id msg e) h =
    rw e (send_tagged_to_pid-IsSound me p ref_id msg r h)
Step-IsSound me r r' (forgets node other e) h = rw e (forget_node-IsSound node me r other h)
Step-IsSound me r r' (exits p reason e) h = exit_now-some-IsSound me r h p reason r' e

pub Reach-IsSound :
    (me : EndpointId) (r r' : ParticleRegistry) → Reach me r r' → IsSound me r → IsSound me r'
Reach-IsSound me r r' here h = h
Reach-IsSound me r r' (then_step {s = s} before step) h =
    Step-IsSound me s r' step (Reach-IsSound me r s before h)

new-IsSound : (me : EndpointId) → IsSound me (new (pid_generator me))
unfolding new pid_generator get contains_key
new-IsSound me = record {
  links = record { both_ways = λ q p l a. ground arith; to_living = λ q p l a. ground arith };
  home = λ p a. ground arith;
  generated = λ p a. ground arith;
  identity = refl;
}

-- Whatever sequence of the calls of `Step` a new registry has gone through, each run to its end
-- before the next, of which the spawns are done while sequence numbers last, the remote links name
-- pids of other nodes and the nodes forgotten are others: every particle is of its node under a pid
-- that its generator has issued, a link between two of its particles is held by both, and no
-- particle is linked to a dead particle of the node.
pub history-IsSound :
    (me : EndpointId) (r : ParticleRegistry) → Reach me (new (pid_generator me)) r → IsSound me r
history-IsSound me r path = Reach-IsSound me (new (pid_generator me)) r path (new-IsSound me)
