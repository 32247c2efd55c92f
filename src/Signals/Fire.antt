-- ===== src/Signals/Fire.antt =====
-- Firing links and monitors in src/signals.rs: that it ends, and whom it kills.
use plasmoid.Prelude.{
  ℕ, ◌≡◌, refl, sym, subst, ◌∙◌, Bool, true, false, Option, none, some, List, [], ◌∷◌, arith, any,
  ◌==◌, Bool-cases, inl, inr, nat_eq,
}
use plasmoid.Prelude.Map.{get, contains_key, contains_key-get}
use plasmoid.Pid.{Pid, pid_eq, pid_beq_iff}
use plasmoid.Message.{ExitReason, no_connection, is_abnormal, SystemMessage, exit, down}
use plasmoid.Registry.State.{ParticleRegistry, ParticleState, with_mailbox}
use plasmoid.Registry.Send.{deliver_exit, deliver_down, send_system, system_to}
use plasmoid.Registry.Exit.{exit_once, apply_inherited_exit, inherit}
use plasmoid.Registry.Views.{States, mortal, alive-exit_once}
use plasmoid.Registry.Cascade.{Returns, Keeps-invariant, exit_now-Returns}
use plasmoid.Registry.Fate.{mortal-exit_once}
use plasmoid.Registry.Directed.{apply_inherited_exit-fatal}
use plasmoid.Signals.{fire_links, fire_monitors}

states-system_to :
    (o : Option ParticleState) (msg : SystemMessage) (r : ParticleRegistry)
    → (system_to o msg r).particle_states ≡ r.particle_states
unfolding with_mailbox
states-system_to none msg r = refl
states-system_to (some s) msg r = refl

states-deliver_down :
    (to from : Pid) (ref_id : ℕ) (reason : ExitReason) (r : ParticleRegistry)
    → (deliver_down to from ref_id reason r).particle_states ≡ r.particle_states
unfolding deliver_down send_system
states-deliver_down to from ref_id reason r =
    states-system_to (get to r.particle_states) (down from ref_id reason) r

states-deliver_exit :
    (to from : Pid) (reason : ExitReason) (r : ParticleRegistry)
    → (deliver_exit to from reason r).particle_states ≡ r.particle_states
unfolding deliver_exit send_system
states-deliver_exit to from reason r =
    states-system_to (get to r.particle_states) (exit from reason) r

pub states-fire_monitors :
    (ms : List (Pid × Pid × ℕ)) (r : ParticleRegistry)
    → (fire_monitors ms r).particle_states ≡ r.particle_states
unfolding fire_monitors
states-fire_monitors [] r = refl
states-fire_monitors ((w, t, ref_id) ∷ ms) r =
    states-fire_monitors ms _ ∙ states-deliver_down w t ref_id no_connection r

-- An invariant of the states that exits keep is kept while links fire.
module _ (P : States → Type 0)
    (once : (pid : Pid) (s : ParticleState) (r : ParticleRegistry)
      → get pid r.particle_states ≡ some s
      → P r.particle_states
      → P (exit_once pid s no_connection r).1.particle_states) where
  inherit-Returns :
      (o : Option ParticleState) (to from : Pid) (r : ParticleRegistry)
      → P r.particle_states
      → Returns (λ n. P n.particle_states) r (inherit o to from no_connection r)
  unfolding is_abnormal
  inherit-Returns none to from r h = (r, refl, h, omega arith)
  inherit-Returns (some s) to from r h = elim (Bool-cases s.trap_exit) [
    | inl t ↦
        let same = states-deliver_exit to from no_connection r in
        (
          deliver_exit to from no_connection r,
          rw t refl,
          subst P (sym same) h,
          ground (arith, same),
        )
    | inr t ↦
        rw t (
          exit_now-Returns (Keeps-invariant (λ n. P n.particle_states) no_connection once) to r tt
            h)
  ]

  apply-Returns :
      (to from : Pid) (r : ParticleRegistry)
      → P r.particle_states
      → Returns (λ n. P n.particle_states) r (apply_inherited_exit to from no_connection r)
  unfolding apply_inherited_exit
  apply-Returns to from r h = inherit-Returns (get to r.particle_states) to from r h

  pub fire_links-Returns :
      (ls : List (Pid × Pid)) (r : ParticleRegistry)
      → P r.particle_states
      → Returns (λ n. P n.particle_states) r (fire_links ls r)
  unfolding fire_links
  fire_links-Returns [] r h = (r, refl, h, omega arith)
  fire_links-Returns ((local, remote) ∷ ls) r h =
      let (r', e, h', le) = apply-Returns local remote r h in
      let (n, e', h'', le') = fire_links-Returns ls r' h' in
      (n, rw (e, fire_links) e', h'', omega arith)

abbrev pub is_from : Pid → Pid × Pid → Bool
is_from q l = l.0 == q

module _ (q : Pid) where
  abbrev pub IsGone : States → Type 0
  IsGone m = contains_key q m ≡ false

  -- Dead, or not trapping exits.
  abbrev pub IsFrail : States → Type 0
  IsFrail m = contains_key q m ≡ mortal (get q m)

  once-IsGone :
      (pid : Pid) (s : ParticleState) (r : ParticleRegistry)
      → get pid r.particle_states ≡ some s
      → IsGone r.particle_states
      → IsGone (exit_once pid s no_connection r).1.particle_states
  once-IsGone pid s r e h = ground (arith, alive-exit_once pid s no_connection r q)

  once-IsFrail :
      (pid : Pid) (s : ParticleState) (r : ParticleRegistry)
      → get pid r.particle_states ≡ some s
      → IsFrail r.particle_states
      → IsFrail (exit_once pid s no_connection r).1.particle_states
  once-IsFrail pid s r e h =
      ground
        (arith, alive-exit_once pid s no_connection r q, mortal-exit_once pid s no_connection r q)

  struck :
      (o : Option ParticleState) (remote : Pid) (r : ParticleRegistry)
      → get q r.particle_states ≡ o
      → IsFrail r.particle_states
      → Returns (λ n. IsGone n.particle_states) r (apply_inherited_exit q remote no_connection r)
  unfolding apply_inherited_exit is_abnormal
  struck none remote r e h =
      (r, rw e refl, ground (arith, contains_key-get q r.particle_states, e), omega arith)
  struck (some s) remote r e h =
      let (n, d, fate, le) = apply_inherited_exit-fatal q remote s r e no_connection in
      (n, d, ground (arith, fate, h, contains_key-get q r.particle_states, e), le)

  pub fire_links-kills :
      (ls : List (Pid × Pid)) (r : ParticleRegistry)
      → any (is_from q) ls ≡ true
      → IsFrail r.particle_states
      → Returns (λ n. IsGone n.particle_states) r (fire_links ls r)
  unfolding fire_links
  fire_links-kills [] r a h = absurd (ground arith)
  fire_links-kills ((local, remote) ∷ ls) r a h = elim (Bool-cases (local == q)) [
    | inl same ↦
        let here = (pid_beq_iff local q).0 same in
        let (r', e, gone, le) = struck (get q r.particle_states) remote r refl h in
        let (n, e', gone', le') = fire_links-Returns IsGone once-IsGone ls r' gone in
        (n, rw (here, e, fire_links) e', gone', omega arith)
    | inr other ↦
        let (r', e, h', le) = apply-Returns IsFrail once-IsFrail local remote r h in
        let (n, e', gone, le') = fire_links-kills ls r' (ground (arith, a, other)) h' in
        (n, rw (e, fire_links) e', gone, omega arith)
  ]
