-- ===== src/Registry/Fate.antt =====
-- Whom an exit in src/registry.rs takes with it: what its first step collects.
use plasmoid.Prelude.{
  ◌≡◌, refl, ◌∙◌, Bool, true, not, ◌&&◌, ◌||◌, List, [], ◌∷◌, ◌++◌, arith, ◌==◌, Option-cases, inl,
  inr, All, beq_refl,
}
use plasmoid.Prelude.Map.{get, get-remove}
use plasmoid.Prelude.Set
use plasmoid.Pid.{Pid, pid_eq, pid_beq_iff}
use plasmoid.Message.{ExitReason, is_abnormal}
use plasmoid.Registry.State.{ParticleRegistry, ParticleState}
use plasmoid.Registry.Relate.{drop_link}
use plasmoid.Registry.Exit.{Cut, cut_peer, cut_links, exit_once}
use plasmoid.Registry.Views.{mortal, mortal-modify, exit_once-states}

contains-append :
    (q : Pid) (xs ys : List Pid)
    → Set.contains q (xs ++ ys) ≡ (Set.contains q xs || Set.contains q ys)
unfolding Set.contains
contains-append q [] ys = ground arith
contains-append q (x ∷ xs) ys = ground (arith, contains-append q xs ys)

pub All-contained :
    (Q : Pid → Type 0) (xs : List Pid) → ((q : Pid) → Set.contains q xs ≡ true → Q q) → All Q xs
unfolding Set.contains
All-contained Q [] h = tt
All-contained Q (x ∷ xs) h =
    (h x (ground (arith, beq_refl x)), All-contained Q xs λ q m. h q (ground (arith, m)))

module _ (pid : Pid) (abnormal : Bool) where
  mortal-cut_peer :
      (linked q : Pid) (c : Cut)
      → mortal (get q (cut_peer pid linked abnormal (get linked c.states) c).states)
        ≡ mortal (get q c.states)
  mortal-cut_peer linked q c = elim (Option-cases (get linked c.states)) [
    | inl e ↦ rw e
    | inr (s, e) ↦ rw e (mortal-modify linked q (drop_link pid) c.states (λ t. refl))
  ]

  cascade-cut_peer :
      (linked q : Pid) (c : Cut)
      → Set.contains q (cut_peer pid linked abnormal (get linked c.states) c).cascade
        ≡ (Set.contains q c.cascade || (abnormal && ((linked == q) && mortal (get q c.states))))
  unfolding Set.contains
  cascade-cut_peer linked q c = elim (Option-cases (get linked c.states)) [
    | inl e ↦ rw e (ground (arith, e, pid_beq_iff linked q))
    | inr (s, e) ↦
        rw e (ground (arith, e, pid_beq_iff linked q, contains-append q c.cascade (linked ∷ [])))
  ]

  pub mortal-cut_links :
      (ls : List Pid) (q : Pid) (c : Cut)
      → mortal (get q (cut_links pid abnormal ls c).states) ≡ mortal (get q c.states)
  unfolding cut_links
  mortal-cut_links [] q c = refl
  mortal-cut_links (linked ∷ ls) q c = mortal-cut_links ls q _ ∙ mortal-cut_peer linked q c

  pub cascade-cut_links :
      (ls : List Pid) (q : Pid) (c : Cut)
      → Set.contains q (cut_links pid abnormal ls c).cascade
        ≡ (Set.contains q c.cascade || (abnormal && (Set.contains q ls && mortal (get q c.states))))
  unfolding cut_links Set.contains
  cascade-cut_links [] q c = ground arith
  cascade-cut_links (linked ∷ ls) q c = ground (
    arith,
    cascade-cut_links ls q (cut_peer pid linked abnormal (get linked c.states) c),
    cascade-cut_peer linked q c,
    mortal-cut_peer linked q c,
  )

module _ (pid : Pid) (s : ParticleState) (reason : ExitReason) (r : ParticleRegistry) where
  -- Who neither exits nor traps exits stays so.
  pub mortal-exit_once :
      (q : Pid)
      → mortal (get q (exit_once pid s reason r).1.particle_states)
        ≡ (not (pid == q) && mortal (get q r.particle_states))
  mortal-exit_once q =
      (exit_once-states pid s reason r).mortals q
      ∙ (mortal-cut_links pid (is_abnormal reason) s.links q _
          ∙ ground (arith, get-remove pid q r.particle_states))

  -- The cascade is those linked who do not trap exits, if the reason is abnormal.
  pub cascade-exit_once :
      (q : Pid)
      → Set.contains q (exit_once pid s reason r).0 ≡ (
          is_abnormal reason
          && (Set.contains q s.links && (not (pid == q) && mortal (get q r.particle_states))))
  unfolding exit_once Set.contains
  cascade-exit_once q =
      cascade-cut_links pid (is_abnormal reason) s.links q _
      ∙ ground (arith, get-remove pid q r.particle_states)
