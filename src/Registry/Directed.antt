-- ===== src/Registry/Directed.antt =====
-- `apply_directed_exit` and `apply_inherited_exit` of src/registry.rs: whom a signal kills.
use plasmoid.Prelude.{
  ◌≡◌, refl, Bool, true, not, ◌&&◌, ◌||◌, Option, some, arith, Bool-cases, inl, inr,
}
use plasmoid.Prelude.Map.{get, contains_key-get}
use plasmoid.Pid.{Pid, pid_eq}
use plasmoid.Message.{ExitReason, killed, is_abnormal}
use plasmoid.Registry.State.{ParticleRegistry, ParticleState}
use plasmoid.Registry.Send.{deliver_exit, send_system}
use plasmoid.Registry.Exit.{apply_directed_exit, apply_inherited_exit, inherit, is_kill}
use plasmoid.Registry.Cascade.{Returns}
use plasmoid.Registry.Symmetry.{is_alive}
use plasmoid.Registry.Spread.{itself}
use plasmoid.Registry.Closed.{exit_now-Spreads}

-- Whether a signal with this reason kills a particle.
abbrev pub is_fatal : ExitReason → ParticleState → Bool
is_fatal reason s = is_kill reason || (is_abnormal reason && not s.trap_exit)

module _ (to from : Pid) (s : ParticleState) (r : ParticleRegistry)
    (e : get to r.particle_states ≡ some s) where
  here-alive : is_alive to r ≡ true
  here-alive = ground (arith, contains_key-get to r.particle_states, e)

  deliver-same :
      (reason : ExitReason) → (deliver_exit to from reason r).particle_states ≡ r.particle_states
  unfolding deliver_exit send_system
  deliver-same reason = rw e refl

  inherited-trapped :
      (reason : ExitReason)
      → s.trap_exit ≡ true
      → apply_inherited_exit to from reason r ≡ some (deliver_exit to from reason r)
  unfolding apply_inherited_exit
  inherited-trapped reason t = opened (get to r.particle_states) e
    where
      opened :
          (o : Option ParticleState)
          → o ≡ some s
          → inherit o to from reason r ≡ some (deliver_exit to from reason r)
      opened o h = rw (h, t) refl

  pub apply_inherited_exit-fatal :
      (reason : ExitReason)
      → Returns
          (λ r'. is_alive to r' ≡ not (is_abnormal reason && not s.trap_exit))
          r
          (apply_inherited_exit to from reason r)
  unfolding apply_inherited_exit
  apply_inherited_exit-fatal reason = elim (Bool-cases s.trap_exit) [
    | inl t ↦ (
      deliver_exit to from reason r,
      inherited-trapped reason t,
      ground (arith, here-alive, t, deliver-same reason),
      ground (arith, deliver-same reason),
    )
    | inr t ↦ elim (Bool-cases (is_abnormal reason)) [
      | inr n ↦ (r, rw (e, t, n) refl, ground (arith, here-alive, n), omega arith)
      | inl n ↦
          let (r', k, dead, le) = exit_now-Spreads reason n to to r here-alive itself in
          (r', rw (e, t, n) k, ground (arith, t, n, dead), le)
    ]
  ]

  -- A directed exit ends. It kills its target, a live particle, exactly if it is a kill, which
  -- nothing traps, or if it is abnormal and the target does not trap exits.
  pub apply_directed_exit-fatal :
      (reason : ExitReason)
      → Returns
          (λ r'. is_alive to r' ≡ not (is_fatal reason s))
          r
          (apply_directed_exit to from reason r)
  unfolding apply_directed_exit is_abnormal
  apply_directed_exit-fatal reason = elim (Bool-cases (is_kill reason)) [
    | inl k ↦
        let (r', d, dead, le) = exit_now-Spreads killed refl to to r here-alive itself in
        (r', rw (k, here-alive) d, ground (arith, k, dead), le)
    | inr k ↦
        let (r', d, fate, le) = apply_inherited_exit-fatal reason in
        (r', rw k d, ground (arith, k, fate), le)
  ]
