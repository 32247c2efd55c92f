-- ===== src/Registry/Send.antt =====
-- src/registry.rs: sending to a particle's mailbox, and looking particles up.
use plasmoid.Prelude.{
  ℕ, String, Bool, Option, none, some, List, [], ◌∷◌, if◌then◌else◌, ◌==◌, string_eq, nat_eq, map,
  length,
}
use plasmoid.Prelude.Map.{Map, get, contains_key}
use plasmoid.Pid.{Pid, pid_eq}
use plasmoid.Message.{SystemMessage, exit, down, ExitReason}
use plasmoid.Mailbox.{Mailbox, Bytes, SendResult, no_particle, push_data, push_tagged, push_system}
use plasmoid.Registry.State.{ParticleRegistry, ParticleState, with_mailbox}

-- The answer of a push to the mailbox with the key: it is the push's own.
abbrev pub push_to :
    ℕ → (Mailbox → SendResult × Mailbox) → ParticleRegistry → SendResult × ParticleRegistry
push_to key push r = (
  elim (get key r.mailboxes) [ none ↦ no_particle | some m ↦ (push m).0 ],
  with_mailbox key (λ m. (push m).1) r,
)

abbrev pub send_with :
    Option ParticleState
    → (Mailbox → SendResult × Mailbox)
    → ParticleRegistry
    → SendResult × ParticleRegistry
send_with none push r = (no_particle, r)
send_with (some state) push r = push_to state.mailbox push r

unfoldable pub send_to_pid : Pid → Bytes → ParticleRegistry → SendResult × ParticleRegistry
unfolding push_data with_mailbox
send_to_pid pid msg r = send_with (get pid r.particle_states) (push_data msg) r

unfoldable pub send_tagged_to_pid :
    Pid → ℕ → Bytes → ParticleRegistry → SendResult × ParticleRegistry
unfolding push_tagged with_mailbox
send_tagged_to_pid pid ref_id msg r =
    send_with (get pid r.particle_states) (push_tagged ref_id msg) r

abbrev pub system_to : Option ParticleState → SystemMessage → ParticleRegistry → ParticleRegistry
system_to none msg r = r
system_to (some state) msg r = with_mailbox state.mailbox (push_system msg) r

-- The error for an unknown pid is dropped by both callers.
unfoldable pub send_system : Pid → SystemMessage → ParticleRegistry → ParticleRegistry
unfolding push_system with_mailbox
send_system pid msg r = system_to (get pid r.particle_states) msg r

unfoldable pub deliver_exit : Pid → Pid → ExitReason → ParticleRegistry → ParticleRegistry
unfolding send_system
deliver_exit to from reason r = send_system to (exit from reason) r

unfoldable pub deliver_down : Pid → Pid → ℕ → ExitReason → ParticleRegistry → ParticleRegistry
unfolding send_system
deliver_down to from ref_id reason r = send_system to (down from ref_id reason) r

unfoldable pub get_by_name : String → ParticleRegistry → Option Pid
get_by_name name r = get name r.names

unfoldable pub particle_count : ParticleRegistry → ℕ
particle_count r = length r.particle_states

unfoldable pub particle_exists : Pid → ParticleRegistry → Bool
particle_exists pid r = contains_key pid r.particle_states

-- `list_particles`: pid, component name and name of each entry.
unfoldable pub list_particles : ParticleRegistry → List (Pid × String × Option String)
list_particles r = map (λ e. (e.1.pid, e.1.component_name, e.1.name)) r.particles

abbrev pub first_displayed : (Pid → String) → String → Map Pid ParticleState → Option Pid
first_displayed display target [] = none
first_displayed display target ((pid, state) ∷ m) =
    let rest = first_displayed display target m in if display pid == target then some pid else rest

-- `resolve_target`: a name first, then the display string of a pid, which `pid.rs` gives.
unfoldable pub resolve_target : (Pid → String) → String → ParticleRegistry → Option Pid
unfolding get_by_name
resolve_target display target r = elim (get_by_name target r) [
  | some pid ↦ some pid
  | none ↦ first_displayed display target r.particle_states
]
