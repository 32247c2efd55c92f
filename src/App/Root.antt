-- ===== src/App/Root.antt =====
-- src/main.rs and src/registry.rs: that the node's fate is that of its root particle.
use plasmoid.Prelude.{
  ◌+◌, ◌≡◌, refl, sym, ap, ◌∙◌, not, ◌&&◌, List, [], ◌∷◌, ◌++◌, arith, if◌then◌else◌, ◌==◌,
  Bool-cases, inl, inr, map, All, All-append, append_assoc, append-nil,
}
use plasmoid.Pid.{Pid, pid_eq}
use plasmoid.Message.{ExitReason, normal}
use plasmoid.Registry.State.{ParticleRegistry, ParticleState, ParticleDeath}
use plasmoid.Registry.Exit.{exit_once, exit_now}
use plasmoid.Registry.Cascade.{Returns, Keeps-invariant, exit_now-Returns}
use plasmoid.Registry.Symmetry.{is_alive}
use plasmoid.Registry.Deaths.{notices, accounted, accounted-exit_once, notice, exit_once-notice}
use plasmoid.App.{
  RestartType, permanent, transient, temporary, Fate, stops, goes_on, death, watching, decide,
  is_failure, should_stop_node, watch_root,
}

abbrev Carries : ExitReason → ParticleDeath → Type 0
Carries reason d = d.reason ≡ reason

-- What was published since: more notices, each with the reason.
abbrev pub Published : ExitReason → List ParticleDeath → ParticleRegistry → Type 0
Published reason before r =
    (new : List ParticleDeath) × (r.deaths ≡ before ++ new) × All (Carries reason) new

-- Any notices that follow are one more, if it carries the reason.
one_more :
    (reason : ExitReason) (before new : List ParticleDeath) (d : ParticleDeath)
    (r r' : ParticleRegistry)
    → r.deaths ≡ before ++ new
    → All (Carries reason) new
    → r'.deaths ≡ r.deaths ++ d ∷ []
    → d.reason ≡ reason
    → Published reason before r'
one_more reason before new d r r' e same more carries = (
  new ++ d ∷ [],
  more ∙ ap (λ ds. ds ++ d ∷ []) e ∙ append_assoc before new (d ∷ []),
  All-append (Carries reason) new (d ∷ []) same (carries, tt),
)

exit_once-Published :
    (reason : ExitReason) (before : List ParticleDeath) (pid : Pid) (s : ParticleState)
    (r : ParticleRegistry)
    → Published reason before r
    → Published reason before (exit_once pid s reason r).1
exit_once-Published reason before pid s r (new, e, same) =
    one_more reason before new (notice pid s reason r) r (exit_once pid s reason r).1 e same
      (exit_once-notice pid s reason r) refl

notices-split :
    (q : Pid) (before new : List ParticleDeath)
    → notices q (before ++ new) ≡ notices q before + notices q new
unfolding notices
notices-split q [] new = omega arith
notices-split q (d ∷ before) new = ground (arith, notices-split q before new)

watch_root-named :
    (root : Pid) (restart_type : RestartType) (reason : ExitReason) (new : List ParticleDeath)
    → All (Carries reason) new
    → notices root new ≡ 1
    → watch_root root restart_type (map death new) ≡ decide restart_type (is_failure reason)
unfolding watch_root notices
watch_root-named root restart_type reason [] same h = absurd (omega (arith, h))
watch_root-named root restart_type reason (d ∷ new) same h = elim (Bool-cases (d.pid == root)) [
  | inl e ↦ rw (e, same.0) refl
  | inr e ↦ rw e (watch_root-named root restart_type reason new same.1 (ground (arith, h)))
]

watch_root-unnamed :
    (root : Pid) (restart_type : RestartType) (new : List ParticleDeath)
    → notices root new ≡ 0
    → watch_root root restart_type (map death new) ≡ watching
unfolding watch_root notices
watch_root-unnamed root restart_type [] h = refl
watch_root-unnamed root restart_type (d ∷ new) h = elim (Bool-cases (d.pid == root)) [
  | inl e ↦ absurd (ground (arith, h))
  | inr e ↦ rw e (watch_root-unnamed root restart_type new (ground (arith, h)))
]

-- What the root's death is to mean: only a normal exit is clean, a permanent root always stops the
-- node, a transient one if it failed, and a temporary one never.
abbrev pub verdict : RestartType → ExitReason → Fate
verdict permanent normal = stops 0
verdict permanent _ = stops 1
verdict transient normal = goes_on
verdict transient _ = stops 1
verdict temporary _ = goes_on

decide-verdict :
    (restart_type : RestartType) (reason : ExitReason)
    → decide restart_type (is_failure reason) ≡ verdict restart_type reason
unfolding should_stop_node
decide-verdict permanent normal = refl
decide-verdict permanent _ = refl
decide-verdict transient normal = refl
decide-verdict transient _ = refl
decide-verdict temporary _ = refl

-- What a watch makes of an exit and its cascade, from what it publishes.
abbrev pub Watched : Pid → RestartType → ExitReason → ParticleRegistry → ParticleRegistry → Type 0
Watched root restart_type reason r r' =
    (new : List ParticleDeath) × (r'.deaths ≡ r.deaths ++ new)
    × (watch_root root restart_type (map death new) ≡ (
        if is_alive root r && not (is_alive root r')
        then verdict restart_type reason
        else watching))

fate_of :
    (root : Pid) (restart_type : RestartType) (reason : ExitReason) (r r' : ParticleRegistry)
    → Published reason r.deaths r'
    → accounted root r' ≡ accounted root r
    → Watched root restart_type reason r r'
fate_of root restart_type reason r r' (new, e, same) sum =
    let split : notices root r'.deaths ≡ notices root r.deaths + notices root new =
      ap (notices root) e ∙ notices-split root r.deaths new in
    (
      new,
      e,
      elim (Bool-cases (is_alive root r)) [
        | inl lived ↦ elim (Bool-cases (is_alive root r')) [
          | inl lives ↦
              rw (lived, lives)
                (watch_root-unnamed root restart_type new
                  (ground (arith, split, sum, lived, lives)))
          | inr died ↦
              rw (lived, died)
                (watch_root-named root restart_type reason new same
                    (ground (arith, split, sum, lived, died))
                  ∙ decide-verdict restart_type reason)
        ]
        | inr dead ↦
            rw dead (watch_root-unnamed root restart_type new (ground (arith, split, sum, dead)))
      ],
    )

-- The node's fate is tied to its root particle. Whichever particle exits, the exit and its cascade
-- end, and a watch of the root that sees what they publish decides exactly if they took the root:
-- the node then stops if the root's type asks for it, with a failing exit code unless the reason is
-- `Normal`, and goes on otherwise. A root that was dead before the watch began is never noticed.
pub watch_root-exit_now :
    (pid root : Pid) (restart_type : RestartType) (reason : ExitReason) (r : ParticleRegistry)
    → Returns (Watched root restart_type reason r) r (exit_now pid reason r)
watch_root-exit_now pid root restart_type reason r =
    let (r', e, (published, sum), le) =
      exit_now-Returns
        (Keeps-invariant (λ n. Published reason r.deaths n × (accounted root n ≡ accounted root r))
          reason
          λ p s n e h. (
            exit_once-Published reason r.deaths p s n h.0,
            accounted-exit_once root r p s reason n e h.1,
          ))
        pid r tt (([], sym (append-nil r.deaths), tt), refl) in
    (r', e, fate_of root restart_type reason r r' published sum, le)
