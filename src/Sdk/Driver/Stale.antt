-- ===== src/Sdk/Driver/Stale.antt =====
-- A patience deadline in crates/plasmoid-sdk/src/supervise.rs that outlives the instance it was
-- set for.
use plasmoid.Prelude.{
  ℕ, ◌+◌, ◌%◌, ◌≤◌, ◌≡◌, ◌≢◌, refl, ◌∙◌, String, true, Option, none, some, [], ◌∷◌, ◌++◌, arith,
  leb, string_eq, beq_refl, u64_mod,
}
use plasmoid.Prelude.Map.{Map, get, remove, get-remove_self}
use plasmoid.Sdk.Spec.{ExitReason, kill, ChildSpec, timeout, start, stop}
use plasmoid.Sdk.Driver.{
  Driver, signal, spawn_link, log_warn, stopping, act, on_received, exit_of, nothing, id_of,
  exit_of_child, stop_if_live, kill_overdue, kill_if_live,
}

get-snoc :
    (id key : String) (m : Map String String)
    → get id m ≡ none
    → get id (m ++ (id, key) ∷ []) ≡ some key
unfolding get
get-snoc id key [] h = ground (arith, beq_refl id)
get-snoc id key ((j, v) ∷ m) h = ground (arith, get-snoc id key m)

remove-snoc :
    (id key : String) (m : Map String String) → remove id (m ++ (id, key) ∷ []) ≡ remove id m
unfolding remove
remove-snoc id key [] = ground (arith, beq_refl id)
remove-snoc id key ((j, v) ∷ m) = ground (arith, remove-snoc id key m)

remove-remove : (id : String) (m : Map String String) → remove id (remove id m) ≡ remove id m
unfolding remove
remove-remove id [] = refl
remove-remove id ((j, v) ∷ m) = ground (arith, remove-remove id m)

id_of-snoc :
    (key id k : String) (m : Map String String)
    → id_of key m ≡ none
    → k ≢ key
    → id_of key (m ++ (id, k) ∷ []) ≡ none
id_of-snoc key id k [] h ne = ground (arith, string_eq.beq_iff k key)
id_of-snoc key id k ((j, v) ∷ m) h ne = ground (arith, id_of-snoc key id k m)

get-restarted :
    (id key : String) (m : Map String String) → get id (remove id m ++ (id, key) ∷ []) ≡ some key
get-restarted id key m = get-snoc id key (remove id m) (get-remove_self id m)

remove-restarted :
    (id key : String) (m : Map String String)
    → remove id (remove id m ++ (id, key) ∷ []) ≡ remove id m
remove-restarted id key m = remove-snoc id key (remove id m) ∙ remove-remove id m

-- A single deadline that has passed kills what is live under its id.
expire-lem :
    (t deadline : ℕ) (id key : String) (d : Driver)
    → d.pending ≡ (id, deadline) ∷ []
    → get id d.live ≡ some key
    → deadline ≤ t
    → on_received t nothing d ≡ record d {
      live = remove id d.live;
      pending = [];
      effects = (d.effects ++ log_warn id ∷ []) ++ signal key kill ∷ [];
    }
unfolding on_received remove
expire-lem t deadline id key d p live late =
    let due : leb deadline t ≡ true = ground arith in
    rw (p, due, kill_overdue, live, kill_if_live, beq_refl id)

module _ (d : Driver) (spec : ChildSpec) (old new : String) (ms t0 t1 t2 : ℕ) (reason : ExitReason)
    (answer : Option String) where
  open spec use {id}

  -- A restart of a running child that its strategy stopped first: it is asked to stop, started
  -- again, and then the old instance's exit arrives.
  abbrev pub restarted : Driver
  restarted =
      on_received t1 (exit_of old reason)
        (act t0 (some new) (start spec) (act t0 answer (stop id (timeout ms)) d))

  -- Then the deadline passes with no other message.
  abbrev pub after_deadline : Driver
  after_deadline = on_received t2 nothing restarted

  -- The pid strings are those of different particles.
  pub record IsRestart : Type 0 where
    pub is_live : get id d.live ≡ some old
    pub idle : d.pending ≡ []
    pub distinct : new ≢ old
    pub old_once : id_of old (remove id d.live) ≡ none
    pub new_fresh : id_of new (remove id d.live) ≡ none

  abbrev replaced : Driver
  replaced = record d {
    live = remove id d.live ++ (id, new) ∷ [];
    pending = (id, (t0 + ms) % u64_mod) ∷ [];
    effects =
        (d.effects ++ signal old stopping ∷ [])
        ++ spawn_link spec.start.component spec.start.init_args ∷ [];
  }

  started-lem :
      IsRestart → act t0 (some new) (start spec) (act t0 answer (stop id (timeout ms)) d) ≡ replaced
  unfolding act
  started-lem h = rw (h.is_live, stop_if_live, h.idle)

  restarted-lem : IsRestart → restarted ≡ replaced
  unfolding on_received exit_of_child
  restarted-lem h =
      rw (started-lem h, id_of-snoc old id new (remove id d.live) h.old_once h.distinct)

  -- The deadline that was set for the old instance kills the replacement: once it passes, the kill
  -- goes to the new pid, the child is live no more, the policy is not told, and it is not told
  -- when the replacement's exit arrives either.
  pub stale_deadline_kills :
      IsRestart
      → (t0 + ms) % u64_mod ≤ t2
      → (after_deadline.effects ≡ (restarted.effects ++ log_warn id ∷ []) ++ signal new kill ∷ [])
        × (get id after_deadline.live ≡ none)
        × (after_deadline.sup ≡ d.sup)
        × ((t : ℕ) (r : ExitReason) → on_received t (exit_of new r) after_deadline ≡ after_deadline)
  unfolding on_received
  stale_deadline_kills h late =
      let live = get-restarted id new d.live in
      let gone = remove-restarted id new d.live in
      rw (restarted-lem h, expire-lem t2 ((t0 + ms) % u64_mod) id new replaced refl live late, gone)
        (refl, get-remove_self id d.live, refl, λ t r. rw (h.new_fresh, exit_of_child))
