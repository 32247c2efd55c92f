-- ===== src/Registry/Holders.antt =====
-- The holders of names in src/registry.rs, through exits.
use plasmoid.Prelude.{
  ◌≡◌, refl, sym, ap, ◌∙◌, true, none, some, List, [], ◌∷◌, arith, String, if◌then◌else◌, string_eq,
  beq_refl,
}
use plasmoid.Prelude.Map.{Map, get, remove, get-remove}
use plasmoid.Prelude.Set
use plasmoid.Pid.{Pid, pid_eq, pid_beq_iff}
use plasmoid.Message.{ExitReason}
use plasmoid.Registry.State.{ParticleRegistry, ParticleState}
use plasmoid.Registry.Exit.{exit_once, exit_now, held, drop_names}
use plasmoid.Registry.Views.{alive-exit_once, deliver_all-same}
use plasmoid.Registry.Cascade.{Returns, Keeps-invariant, exit_now-Returns}
use plasmoid.Registry.Symmetry.{is_alive}

get-drop_names :
    (ns : List String) (n : String) (names : Map String Pid)
    → get n (drop_names ns names) ≡ (if Set.contains n ns then none else get n names)
unfolding drop_names Set.contains
get-drop_names [] n names = ground arith
get-drop_names (m ∷ ns) n names =
    ground (arith, get-drop_names ns n (remove m names), get-remove m n names)

contains-held :
    (pid : Pid) (n : String) (names : Map String Pid)
    → get n names ≡ some pid
    → Set.contains n (held pid names) ≡ true
unfolding held get Set.contains
contains-held pid n [] h = ground arith
contains-held pid n ((m, p) ∷ names) h =
    ground (arith, contains-held pid n names, beq_refl pid, pid_beq_iff p pid)

-- Every name is held by a live particle.
pub record HoldersLive (r : ParticleRegistry) : Type 0 where
  pub live : (n : String) (p : Pid) → get n r.names ≡ some p → is_alive p r ≡ true

names-exit_once :
    (pid : Pid) (s : ParticleState) (reason : ExitReason) (r : ParticleRegistry)
    → (exit_once pid s reason r).1.names ≡ drop_names (held pid r.names) r.names
unfolding exit_once
names-exit_once pid s reason r = rw deliver_all-same refl

exit_once-HoldersLive :
    (reason : ExitReason) (pid : Pid) (s : ParticleState) (r : ParticleRegistry)
    → get pid r.particle_states ≡ some s
    → HoldersLive r
    → HoldersLive (exit_once pid s reason r).1
exit_once-HoldersLive reason pid s r e h = record {
  live = λ n p held_by.
      let g : get n (drop_names (held pid r.names) r.names) ≡ some p =
        ap (get n) (sym (names-exit_once pid s reason r)) ∙ held_by in
      ground (
        arith,
        g,
        get-drop_names (held pid r.names) n r.names,
        contains-held pid n r.names,
        alive-exit_once pid s reason r p,
        h.live n p,
        pid_beq_iff pid p,
      );
}

-- An exit ends, and no name is left with a particle that it took.
pub exit_now-HoldersLive :
    (pid : Pid) (reason : ExitReason) (r : ParticleRegistry)
    → HoldersLive r
    → Returns HoldersLive r (exit_now pid reason r)
exit_now-HoldersLive pid reason r h =
    exit_now-Returns (Keeps-invariant HoldersLive reason (exit_once-HoldersLive reason)) pid r tt h
