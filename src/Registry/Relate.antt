-- ===== src/Registry/Relate.antt =====
-- src/registry.rs: links, monitors and the trap-exit flag, and the relationships with one node.
use plasmoid.Prelude.{
  ℕ, Bool, not, ◌&&◌, Option, none, some, List, [], ◌∷◌, ◌++◌, if◌then◌else◌, ◌==◌, nat_eq, filter,
  map, next_u64,
}
use plasmoid.Prelude.Map.{Map, get, insert, remove, contains_key}
use plasmoid.Prelude.Set
use plasmoid.Pid.{Pid, pid_eq, EndpointId, is_local_to}
use plasmoid.Message.{normal, down}
use plasmoid.Registry.State.{ParticleRegistry, ParticleState, with_state}
use plasmoid.Registry.Send.{send_system}

abbrev pub add_link : Pid → ParticleState → ParticleState
add_link other s = record s { links = Set.insert other s.links }

abbrev pub drop_link : Pid → ParticleState → ParticleState
drop_link other s = record s { links = Set.remove other s.links }

abbrev pub add_monitor : ℕ → Pid → ParticleState → ParticleState
add_monitor ref_id target s = record s { monitors = insert ref_id target s.monitors }

abbrev pub drop_monitor : ℕ → ParticleState → ParticleState
drop_monitor ref_id s = record s { monitors = remove ref_id s.monitors }

abbrev pub add_watcher : Pid → ℕ → ParticleState → ParticleState
add_watcher watcher ref_id s = record s { monitored_by = s.monitored_by ++ (watcher, ref_id) ∷ [] }

unfoldable pub link_remote : Pid → Pid → ParticleRegistry → ParticleRegistry
unfolding with_state
link_remote local remote r = with_state local (add_link remote) r

unfoldable pub unlink_remote : Pid → Pid → ParticleRegistry → ParticleRegistry
unfolding with_state
unlink_remote local remote r = with_state local (drop_link remote) r

unfoldable pub monitor_remote : Pid → Pid → ℕ → ParticleRegistry → ParticleRegistry
unfolding with_state
monitor_remote watcher target ref_id r =
    with_state target (add_watcher watcher ref_id)
      (with_state watcher (add_monitor ref_id target) r)

unfoldable pub monitor_with_ref : Pid → Pid → ℕ → ParticleRegistry → ParticleRegistry
unfolding with_state
monitor_with_ref watcher target ref_id r =
    with_state target (add_watcher watcher ref_id)
      (with_state watcher (add_monitor ref_id target) r)

-- `Result<()>` of `link`; the error names the pid that has no particle.
pub data LinkResult : Type 0 where
  linked : LinkResult
  no_particle : Pid → LinkResult

unfoldable pub link : Pid → Pid → ParticleRegistry → LinkResult × ParticleRegistry
unfolding with_state
link a b r =
    if contains_key a r.particle_states
    then (if contains_key b r.particle_states
        then (linked, with_state b (add_link a) (with_state a (add_link b) r))
        else (no_particle b, r))
    else (no_particle a, r)

unfoldable pub unlink : Pid → Pid → ParticleRegistry → ParticleRegistry
unfolding with_state
unlink a b r = with_state b (drop_link a) (with_state a (drop_link b) r)

-- `Result<u64>` of `monitor`.
pub data MonitorResult : Type 0 where
  monitoring : ℕ → MonitorResult
  no_watcher : MonitorResult

abbrev pub take_ref : ParticleRegistry → ParticleRegistry
take_ref r = record r { next_ref = next_u64 r.next_ref }

-- The entry on the target is pushed before the watcher is looked up, and stays if there is none.
unfoldable pub monitor : Pid → Pid → ParticleRegistry → MonitorResult × ParticleRegistry
unfolding with_state send_system
monitor watcher target r =
    let ref_id = r.next_ref in
    let watched = with_state target (add_watcher watcher ref_id) (take_ref r) in
    if contains_key target r.particle_states
    then (if contains_key watcher r.particle_states
        then (monitoring ref_id, with_state watcher (add_monitor ref_id target) watched)
        else (no_watcher, watched))
    else (monitoring ref_id, send_system watcher (down target ref_id normal) (take_ref r))

abbrev pub is_watcher : Pid → ℕ → Pid × ℕ → Bool
is_watcher watcher ref_id w = (w.0 == watcher) && (w.1 == ref_id)

abbrev pub drop_watcher : Pid → ℕ → ParticleState → ParticleState
drop_watcher watcher ref_id s = record s {
  monitored_by = filter (λ w. not (is_watcher watcher ref_id w)) s.monitored_by;
}

abbrev pub monitored : ℕ → Option ParticleState → Option Pid
monitored ref_id none = none
monitored ref_id (some s) = get ref_id s.monitors

abbrev pub forget_watcher : Pid → ℕ → Option Pid → ParticleRegistry → ParticleRegistry
forget_watcher watcher ref_id none r = r
forget_watcher watcher ref_id (some target) r = with_state target (drop_watcher watcher ref_id) r

unfoldable pub demonitor : Pid → ℕ → ParticleRegistry → ParticleRegistry
unfolding with_state
demonitor watcher ref_id r =
    forget_watcher watcher ref_id (monitored ref_id (get watcher r.particle_states))
      (with_state watcher (drop_monitor ref_id) r)

unfoldable pub set_trap_exit : Pid → Bool → ParticleRegistry → ParticleRegistry
unfolding with_state
set_trap_exit pid enabled r = with_state pid (λ s. record s { trap_exit = enabled }) r

-- `relationships_with_node`: the links, and the monitors with their references.
unfoldable pub links_with : EndpointId → Map Pid ParticleState → List (Pid × Pid)
unfolding is_local_to
links_with node [] = []
links_with node ((pid, s) ∷ m) =
    map (λ p. (pid, p)) (filter (λ p. is_local_to p node) s.links) ++ links_with node m

unfoldable pub monitors_with : EndpointId → Map Pid ParticleState → List (Pid × Pid × ℕ)
unfolding is_local_to
monitors_with node [] = []
monitors_with node ((pid, s) ∷ m) =
    map (λ e. (pid, e.1, e.0)) (filter (λ e. is_local_to e.1 node) s.monitors)
    ++ monitors_with node m

unfoldable pub forget_in : EndpointId → ParticleState → ParticleState
unfolding is_local_to
forget_in node s = record s {
  links = filter (λ p. not (is_local_to p node)) s.links;
  monitors = filter (λ e. not (is_local_to e.1 node)) s.monitors;
  monitored_by = filter (λ w. not (is_local_to w.0 node)) s.monitored_by;
}

unfoldable pub forget_node : EndpointId → ParticleRegistry → ParticleRegistry
unfolding forget_in
forget_node node r = record r {
  particle_states = map (λ e. (e.0, forget_in node e.1)) r.particle_states;
}
