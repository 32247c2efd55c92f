-- ===== src/Sdk/DynamicDriver/Stuck.antt =====
-- crates/plasmoid-sdk/src/supervise.rs: a child of a dynamic supervisor that could not be started.
use plasmoid.Prelude.{
  ℕ, String, ◌≡◌, refl, ap, ◌∙◌, Bool, true, false, none, some, List, [], ◌∷◌, ◌++◌, arith,
  if◌then◌else◌, string_eq, beq_refl,
}
use plasmoid.Sdk.Spec.{ChildSpec, Action, start}
use plasmoid.Sdk.Dynamic.{DynamicSupervisor, contains}
use plasmoid.Sdk.DynamicDriver.{
  DynamicDriver, SupervisorCommand, start_child_op, started_child, refused_duplicate, send_ref,
  spawn_link, log_error, run_op, on_tagged, drain, start_reply, answer_caller, Effect,
}
use plasmoid.Sdk.DynamicDriver.Commands.{start_child-new, start_child-old, any-snoc}

-- The command to start a child.
abbrev pub start_command : String → ChildSpec → SupervisorCommand
start_command reply_to spec = record { reply_to = reply_to; op = start_child_op spec }

-- The driver with the new child, before and after its start is tried.
abbrev with_child : ChildSpec → DynamicSupervisor → DynamicSupervisor
with_child spec s = record s { children = s.children ++ spec ∷ [] }

abbrev commanded : List Effect → ChildSpec → DynamicDriver → DynamicDriver
commanded told spec d = record d {
  sup = with_child spec d.sup;
  queue = start spec ∷ [];
  effects = told;
}

abbrev unstarted : List Effect → ChildSpec → DynamicDriver → DynamicDriver
unstarted told spec d = record d {
  sup = with_child spec d.sup;
  queue = [];
  effects =
      (told ++ spawn_link spec.start.component spec.start.init_args ∷ []) ++ log_error spec.id ∷ [];
}

commanded-lem :
    (ref_id : ℕ) (reply_to : String) (spec : ChildSpec) (d : DynamicDriver)
    → contains spec.id d.sup ≡ false
    → d.queue ≡ []
    → on_tagged ref_id (some (start_command reply_to spec)) true d
      ≡ commanded (d.effects ++ send_ref reply_to ref_id (started_child spec.id) ∷ []) spec d
unfolding on_tagged
commanded-lem ref_id reply_to spec d free idle =
    ap (λ o. answer_caller true reply_to ref_id (start_reply o spec.id d))
      (start_child-new spec d.sup free)
    ∙ ap
        (λ (queue : List Action). record d {
          sup = with_child spec d.sup;
          queue = queue ++ start spec ∷ [];
          effects = d.effects ++ send_ref reply_to ref_id (started_child spec.id) ∷ [];
        })
        idle

if_same {ℓ} : {A : Type ℓ} (b : Bool) (x : A) → (if b then x else x) ≡ x
if_same true x = refl
if_same false x = refl

drain-unstarted :
    (told : List Effect) (now : ℕ) (spec : ChildSpec) (d : DynamicDriver)
    → drain ((now, none) ∷ []) [] (commanded told spec d) ≡ some (unstarted told spec d)
unfolding drain
drain-unstarted told now spec d = if_same d.ended (some (unstarted told spec d))

contains-with_child :
    (spec : ChildSpec) (s : DynamicSupervisor) → contains spec.id (with_child spec s) ≡ true
unfolding contains
contains-with_child spec s = ground (arith, any-snoc spec.id s.children spec, beq_refl spec.id)

again_refused :
    (again : ChildSpec) (d : DynamicDriver)
    → contains again.id d.sup ≡ true
    → (run_op (start_child_op again) d).0 ≡ refused_duplicate again.id
unfolding run_op
again_refused again d there =
    ap (λ o. (start_reply o again.id d).0) (start_child-old again d.sup there)

-- A child that could not be started is taken for one that runs. If a caller whose pid resolves
-- commands to start a child whose id is free, while nothing is queued, and the host cannot start it,
-- then after the actions the caller has been told that it is started and an error is logged; the
-- live instances are as they were and nothing more is queued; and a command that then comes to
-- start a child with that id is refused as a duplicate.
pub failed_start_sticks :
    (ref_id now : ℕ) (reply_to : String) (spec again : ChildSpec) (d : DynamicDriver)
    → contains spec.id d.sup ≡ false
    → d.queue ≡ []
    → again.id ≡ spec.id
    → (after : DynamicDriver) × (drain
          ((now, none) ∷ [])
          []
          (on_tagged ref_id (some (start_command reply_to spec)) true d)
        ≡ some after)
      × (after.effects
          ≡ ((d.effects ++ send_ref reply_to ref_id (started_child spec.id) ∷ [])
              ++ spawn_link spec.start.component spec.start.init_args ∷ [])
            ++ log_error spec.id ∷ [])
      × (after.live ≡ d.live)
      × (after.queue ≡ [])
      × ((run_op (start_child_op again) after).0 ≡ refused_duplicate again.id)
failed_start_sticks ref_id now reply_to spec again d free idle same =
    let told = d.effects ++ send_ref reply_to ref_id (started_child spec.id) ∷ [] in
    (
      unstarted told spec d,
      ap (drain ((now, none) ∷ []) []) (commanded-lem ref_id reply_to spec d free idle)
          ∙ drain-unstarted told now spec d,
      refl,
      refl,
      refl,
      again_refused again (unstarted told spec d) (rw same (contains-with_child spec d.sup)),
    )
