-- ===== src/Protocol/Follows.antt =====
-- src/protocol.rs and src/registry.rs: that what a peer's message does to the registry is a call of
-- one of its methods, or nothing.
use plasmoid.Prelude.{ℕ, ◌≡◌, refl, Option, none, some, Bool-cases, inl, inr, nat_eq}
use plasmoid.Prelude.Map.{get, contains_key}
use plasmoid.Pid.{Pid, pid_eq, EndpointId}
use plasmoid.Message.{ExitReason, exit, down, is_abnormal, killed}
use plasmoid.Mailbox.{Bytes}
use plasmoid.Registry.State.{ParticleRegistry, ParticleState}
use plasmoid.Registry.Send.{deliver_exit, deliver_down}
use plasmoid.Registry.Relate.{monitor_remote, monitor_with_ref}
use plasmoid.Registry.Exit.{exit_now, inherit, apply_inherited_exit, apply_directed_exit, is_kill}
use plasmoid.Registry.Sound.{IsSound, exit_now-IsSound}
use plasmoid.Registry.History.{
  Step, Reach, here, then_step, sends, sends_data, sends_tagged, exits, monitors, Step-IsSound,
}
use plasmoid.Transport.{Envelope}
use plasmoid.Protocol.{deliver_resolved, send_either}

-- A result is reached, by calls of the registry's methods alone, and the registry is sound there.
abbrev pub Follows : EndpointId → ParticleRegistry → Option ParticleRegistry → Type 0
Follows me r o = (r' : ParticleRegistry) × (o ≡ some r') × Reach me r r' × IsSound me r'

module _ (me : EndpointId) (r : ParticleRegistry) (h : IsSound me r) where
  pub Step-Follows : {r' : ParticleRegistry} → Step me r r' → Follows me r (some r')
  Step-Follows {r' = r'} step = (r', refl, then_step here step, Step-IsSound me r r' step h)

  pub unchanged : Follows me r (some r)
  unchanged = (r, refl, here, h)

  pub exit_now-Follows : (p : Pid) (reason : ExitReason) → Follows me r (exit_now p reason r)
  exit_now-Follows p reason =
      let (r', e, ok, le) = exit_now-IsSound me p reason r h in
      (r', e, then_step here (exits p reason e), ok)

  pub deliver_exit-Follows :
      (to from : Pid) (reason : ExitReason) → Follows me r (some (deliver_exit to from reason r))
  unfolding deliver_exit
  deliver_exit-Follows to from reason = Step-Follows (sends to (exit from reason) refl)

  pub deliver_down-Follows :
      (to from : Pid) (ref_id : ℕ) (reason : ExitReason)
      → Follows me r (some (deliver_down to from ref_id reason r))
  unfolding deliver_down
  deliver_down-Follows to from ref_id reason =
      Step-Follows (sends to (down from ref_id reason) refl)

  -- Both record the same halves.
  pub monitor_remote-Follows :
      (watcher target : Pid) (ref_id : ℕ)
      → Follows me r (some (monitor_remote watcher target ref_id r))
  unfolding monitor_remote monitor_with_ref
  monitor_remote-Follows watcher target ref_id = Step-Follows (monitors watcher target ref_id refl)

  pub inherit-Follows :
      (o : Option ParticleState) (to from : Pid) (reason : ExitReason)
      → Follows me r (inherit o to from reason r)
  inherit-Follows none to from reason = unchanged
  inherit-Follows (some s) to from reason = elim (Bool-cases s.trap_exit) [
    | inl traps ↦ rw traps (deliver_exit-Follows to from reason)
    | inr open_to_it ↦ elim (Bool-cases (is_abnormal reason)) [
      | inl abnormal ↦ rw (open_to_it, abnormal) (exit_now-Follows to reason)
      | inr normal ↦ rw (open_to_it, normal) unchanged
    ]
  ]

  pub apply_inherited_exit-Follows :
      (to from : Pid) (reason : ExitReason) → Follows me r (apply_inherited_exit to from reason r)
  unfolding apply_inherited_exit
  apply_inherited_exit-Follows to from reason =
      inherit-Follows (get to r.particle_states) to from reason

  pub apply_directed_exit-Follows :
      (to from : Pid) (reason : ExitReason) → Follows me r (apply_directed_exit to from reason r)
  unfolding apply_directed_exit
  apply_directed_exit-Follows to from reason = elim (Bool-cases (is_kill reason)) [
    | inl kills ↦ elim (Bool-cases (contains_key to r.particle_states)) [
      | inl there ↦ rw (kills, there) (exit_now-Follows to killed)
      | inr gone ↦ rw (kills, gone) unchanged
    ]
    | inr other ↦ rw other (apply_inherited_exit-Follows to from reason)
  ]

  pub send_either-Follows :
      (ref_id : Option ℕ) (p : Pid) (msg : Bytes)
      → Follows me r (some (send_either ref_id p msg r).1)
  unfolding send_either
  send_either-Follows none p msg = Step-Follows (sends_data p msg refl)
  send_either-Follows (some ref_id) p msg = Step-Follows (sends_tagged p ref_id msg refl)

  pub deliver_resolved-Follows :
      (o : Option Pid) (e : Envelope) → Follows me r (some (deliver_resolved o e r))
  deliver_resolved-Follows none e = unchanged
  deliver_resolved-Follows (some p) e = send_either-Follows e.ref_id p e.payload
