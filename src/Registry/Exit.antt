-- ===== src/Registry/Exit.antt =====
-- src/registry.rs: `exit_particle`, and exit signals applied to a particle.
use plasmoid.Prelude.{
  ℕ, zero, suc, String, Bool, true, false, not, Option, none, some, List, [], ◌∷◌, ◌++◌,
  if◌then◌else◌, ◌==◌, filter, map, length, string_eq, nat_eq,
}
use plasmoid.Prelude.Map.{Map, get, remove, modify, contains_key}
use plasmoid.Pid.{Pid, pid_eq, is_local_to}
use plasmoid.Message.{ExitReason, kill, killed, is_abnormal, SystemMessage, exit, down}
use plasmoid.Mailbox.{close, push_system}
use plasmoid.Registry.State.{ParticleRegistry, ParticleState, with_mailbox}
use plasmoid.Registry.Send.{deliver_exit}
use plasmoid.Registry.Relate.{drop_link, drop_monitor}

-- The names that a pid holds.
unfoldable pub held : Pid → Map String Pid → List String
held pid names = map (λ e. e.0) (filter (λ e. e.1 == pid) names)

unfoldable pub drop_names : List String → Map String Pid → Map String Pid
drop_names [] names = names
drop_names (n ∷ ns) names = drop_names ns (remove n names)

abbrev pub first : List String → Option String
first [] = none
first (n ∷ ns) = some n

-- Each block of `exit_particle` after the removal of the state.
unfoldable pub drop_particle : Pid → ParticleRegistry → ParticleRegistry
unfolding held drop_names
drop_particle pid r = record r {
  particles = remove pid r.particles;
  names = drop_names (held pid r.names) r.names;
}

unfoldable pub publish :
    Pid → Option String → ParticleState → ExitReason → ParticleRegistry → ParticleRegistry
unfolding is_local_to
publish pid name s reason r = record r {
  deaths =
      r.deaths
      ++ record {
        pid = pid;
        name = name;
        reason = reason;
        remote_links = filter (λ p. not (is_local_to p r.pid_gen.node)) s.links;
        remote_monitors = filter (λ w. not (is_local_to w.0 r.pid_gen.node)) s.monitored_by;
      }
        ∷ [];
}

-- What the loop over the links collects: the states, the mailboxes of those who trap exits, and
-- those who die.
pub record Cut : Type 0 where
  pub states : Map Pid ParticleState
  pub deliveries : List ℕ
  pub cascade : List Pid

abbrev pub cut_peer : Pid → Pid → Bool → Option ParticleState → Cut → Cut
cut_peer pid linked abnormal none c = c
cut_peer pid linked abnormal (some peer) c = record {
  states = modify linked (drop_link pid) c.states;
  deliveries = if peer.trap_exit then c.deliveries ++ peer.mailbox ∷ [] else c.deliveries;
  cascade =
      if peer.trap_exit
      then c.cascade
      else (if abnormal then c.cascade ++ linked ∷ [] else c.cascade);
}

unfoldable pub cut_links : Pid → Bool → List Pid → Cut → Cut
cut_links pid abnormal [] c = c
cut_links pid abnormal (linked ∷ ls) c =
    cut_links pid abnormal ls (cut_peer pid linked abnormal (get linked c.states) c)

abbrev pub cut_watcher :
    Pid
    → ℕ
    → Option ParticleState
    → Map Pid ParticleState × List (ℕ × ℕ)
    → Map Pid ParticleState × List (ℕ × ℕ)
cut_watcher watcher ref_id none c = c
cut_watcher watcher ref_id (some w) c =
    (modify watcher (drop_monitor ref_id) c.0, c.1 ++ (w.mailbox, ref_id) ∷ [])

unfoldable pub cut_watchers :
    List (Pid × ℕ) → Map Pid ParticleState × List (ℕ × ℕ) → Map Pid ParticleState × List (ℕ × ℕ)
cut_watchers [] c = c
cut_watchers ((watcher, ref_id) ∷ ws) c =
    cut_watchers ws (cut_watcher watcher ref_id (get watcher c.0) c)

unfoldable pub deliver_all : List (ℕ × SystemMessage) → ParticleRegistry → ParticleRegistry
unfolding with_mailbox push_system
deliver_all [] r = r
deliver_all ((mailbox, msg) ∷ ds) r = deliver_all ds (with_mailbox mailbox (push_system msg) r)

-- All of `exit_particle` but the cascade, for a particle whose state was removed from the map: the
-- registry, and whom the cascade kills.
unfoldable pub exit_once :
    Pid → ParticleState → ExitReason → ParticleRegistry → List Pid × ParticleRegistry
unfolding with_mailbox close drop_particle publish cut_links cut_watchers deliver_all held
exit_once pid s reason r =
    let gone =
      with_mailbox s.mailbox close (record r { particle_states = remove pid r.particle_states }) in
    let told = publish pid (first (held pid r.names)) s reason (drop_particle pid gone) in
    let cut =
      cut_links pid (is_abnormal reason) s.links
        (record { states = told.particle_states; deliveries = []; cascade = [] }) in
    let watched = cut_watchers s.monitored_by (cut.states, []) in
    (
      cut.cascade,
      deliver_all
          (map (λ m. (m, exit pid reason)) cut.deliveries
            ++ map (λ d. (d.0, down pid d.1 reason)) watched.1)
          (record told { particle_states = watched.0 }),
    )

-- The cascade: each kill runs to its end before the next.
unfoldable pub cascade_kills :
    (Pid → ParticleRegistry → Option ParticleRegistry)
    → List Pid
    → ParticleRegistry
    → Option ParticleRegistry
cascade_kills go [] r = some r
cascade_kills go (p ∷ ps) r = elim (go p r) [ none ↦ none | some r' ↦ cascade_kills go ps r' ]

-- `exit_particle`; `none` says that the fuel, which bounds the depth of the cascade, ran out.
unfoldable pub exit_particle : ℕ → Pid → ExitReason → ParticleRegistry → Option ParticleRegistry
unfolding exit_once cascade_kills
exit_particle zero pid reason r = elim (get pid r.particle_states) [ none ↦ some r | some s ↦ none ]
exit_particle (suc fuel) pid reason r = elim (get pid r.particle_states) [
  | none ↦ some r
  | some s ↦
      let once = exit_once pid s reason r in
      cascade_kills (λ p. exit_particle fuel p reason) once.0 once.1
]

-- Each exit removes a particle, so their number bounds the depth.
unfoldable pub exit_now : Pid → ExitReason → ParticleRegistry → Option ParticleRegistry
unfolding exit_particle
exit_now pid reason r = exit_particle (length r.particle_states) pid reason r

abbrev pub inherit :
    Option ParticleState → Pid → Pid → ExitReason → ParticleRegistry → Option ParticleRegistry
inherit none to from reason r = some r
inherit (some s) to from reason r =
    if s.trap_exit
    then some (deliver_exit to from reason r)
    else (if is_abnormal reason then exit_now to reason r else some r)

unfoldable pub apply_inherited_exit :
    Pid → Pid → ExitReason → ParticleRegistry → Option ParticleRegistry
unfolding exit_now deliver_exit is_abnormal
apply_inherited_exit to from reason r = inherit (get to r.particle_states) to from reason r

abbrev pub is_kill : ExitReason → Bool
is_kill kill = true
is_kill _ = false

unfoldable pub apply_directed_exit :
    Pid → Pid → ExitReason → ParticleRegistry → Option ParticleRegistry
unfolding apply_inherited_exit exit_now
apply_directed_exit to from reason r =
    if is_kill reason
    then (if contains_key to r.particle_states then exit_now to killed r else some r)
    else apply_inherited_exit to from reason r
