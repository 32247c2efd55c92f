-- ===== src/Sdk/DynamicDriver/Commands.antt =====
-- crates/plasmoid-sdk/src/supervise.rs: how a dynamic supervisor answers its commands.
use plasmoid.Prelude.{
  ℕ, String, ◌≡◌, refl, sym, subst, Bool, true, false, ◌||◌, some, List, [], ◌∷◌, ◌++◌, arith,
  if◌then◌else◌, ◌==◌, string_eq, any, beq_refl, Bool-cases, inl, inr,
}
use plasmoid.Sdk.Spec.{ChildSpec, start}
use plasmoid.Sdk.Dynamic.{
  DynamicSupervisor, contains, start_child, terminate_child, stop_removed, started, duplicate_id,
}
use plasmoid.Sdk.Dynamic.Children.{Unique, Unique-absent, remove_found-cases}
use plasmoid.Sdk.DynamicDriver.{
  DynamicDriver, SupervisorOp, SupervisorCommand, SupervisorReply, start_child_op,
  terminate_child_op, started_child, terminated, refused_duplicate, refused_unknown, send_ref,
  run_op, on_tagged, terminate_reply, start_reply,
}

-- The child that a command is about.
abbrev pub id_named : SupervisorOp → String
id_named (start_child_op spec) = spec.id
id_named (terminate_child_op id) = id

-- What the answer should be, from the children there are.
abbrev pub expected : SupervisorOp → DynamicSupervisor → SupervisorReply
expected (start_child_op spec) s =
    if contains spec.id s then refused_duplicate spec.id else started_child spec.id
expected (terminate_child_op id) s = if contains id s then terminated else refused_unknown id

abbrev pub is_start : SupervisorOp → Bool
is_start (start_child_op spec) = true
is_start (terminate_child_op id) = false

-- What a command does, besides its answer.
pub record Obeys (op : SupervisorOp) (d : DynamicDriver) (r : SupervisorReply × DynamicDriver)
    : Type 0 where
  pub reply : r.0 ≡ expected op d.sup
  pub children : contains (id_named op) r.1.sup ≡ is_start op
  pub live : r.1.live ≡ d.live
  pub effects : r.1.effects ≡ d.effects
  pub pending : r.1.pending ≡ d.pending

pub any-snoc :
    (id : String) (cs : List ChildSpec) (c : ChildSpec)
    → any (λ d. d.id == id) (cs ++ c ∷ []) ≡ (any (λ d. d.id == id) cs || (c.id == id))
any-snoc id [] c = ground arith
any-snoc id (d ∷ cs) c = ground (arith, any-snoc id cs c)

any-middle :
    (id : String) (pre post : List ChildSpec) (c : ChildSpec)
    → (c.id == id) ≡ true
    → any (λ d. d.id == id) (pre ++ c ∷ post) ≡ true
any-middle id [] post c same = ground arith
any-middle id (d ∷ pre) post c same = ground (arith, any-middle id pre post c same)

pub start_child-old :
    (spec : ChildSpec) (s : DynamicSupervisor)
    → contains spec.id s ≡ true
    → start_child spec s ≡ (duplicate_id spec.id, s)
unfolding start_child
start_child-old spec s old = rw old refl

pub start_child-new :
    (spec : ChildSpec) (s : DynamicSupervisor)
    → contains spec.id s ≡ false
    → start_child spec s ≡ (started (start spec), record s { children = s.children ++ spec ∷ [] })
unfolding start_child
start_child-new spec s new = rw new refl

start_child-Obeys :
    (spec : ChildSpec) (d : DynamicDriver)
    → Obeys (start_child_op spec) d (run_op (start_child_op spec) d)
unfolding run_op start_child contains
start_child-Obeys spec d = elim (Bool-cases (any (λ c. c.id == spec.id) d.sup.children)) [
  | inl old ↦
      subst (λ o. Obeys (start_child_op spec) d (start_reply o spec.id d))
        (sym (start_child-old spec d.sup old))
        (record {
          reply = rw old refl;
          children = old;
          live = refl;
          effects = refl;
          pending = refl;
        })
  | inr new ↦
      subst (λ o. Obeys (start_child_op spec) d (start_reply o spec.id d))
        (sym (start_child-new spec d.sup new))
        (record {
          reply = rw new refl;
          children = ground (arith, any-snoc spec.id d.sup.children spec, beq_refl spec.id);
          live = refl;
          effects = refl;
          pending = refl;
        })
]

terminate_child-Obeys :
    (id : String) (d : DynamicDriver)
    → Unique d.sup.children
    → Obeys (terminate_child_op id) d (run_op (terminate_child_op id) d)
unfolding run_op terminate_child contains
terminate_child-Obeys id d u =
    remove_found-cases
      (λ o. Obeys (terminate_child_op id) d (terminate_reply (stop_removed o d.sup) id d)) id
      d.sup.children
      (λ free. record {
        reply = rw free refl;
        children = free;
        live = refl;
        effects = refl;
        pending = refl;
      })
      λ pre post c whole before same. record {
        reply = rw whole (rw (any-middle id pre post c same) refl);
        children = Unique-absent pre post c id same before (subst Unique whole u);
        live = refl;
        effects = refl;
        pending = refl;
      }

run_op-Obeys :
    (op : SupervisorOp) (d : DynamicDriver) → Unique d.sup.children → Obeys op d (run_op op d)
run_op-Obeys (start_child_op spec) d u = start_child-Obeys spec d
run_op-Obeys (terminate_child_op id) d u = terminate_child-Obeys id d u

-- A command is answered once, with the caller's reference, and does what the answer says. Given a
-- command that can be decoded, from a caller whose pid resolves, and a supervisor no two of whose
-- children share an id: what the host is asked is one reply to the caller; a start is refused
-- exactly if there is a child with the id, and a termination exactly if there is none; afterwards
-- there is a child with the id if the command was to start one, and there is none if it was to
-- terminate one; and no running instance or deadline is touched yet.
pub on_tagged-answers :
    (ref_id : ℕ) (cmd : SupervisorCommand) (d : DynamicDriver)
    → Unique d.sup.children
    → ((on_tagged ref_id (some cmd) true d).effects
        ≡ d.effects ++ send_ref cmd.reply_to ref_id (expected cmd.op d.sup) ∷ [])
      × (contains (id_named cmd.op) (on_tagged ref_id (some cmd) true d).sup ≡ is_start cmd.op)
      × ((on_tagged ref_id (some cmd) true d).live ≡ d.live)
      × ((on_tagged ref_id (some cmd) true d).pending ≡ d.pending)
unfolding on_tagged
on_tagged-answers ref_id cmd d u =
    let o = run_op-Obeys cmd.op d u in (rw (o.effects, o.reply) refl, o.children, o.live, o.pending)
