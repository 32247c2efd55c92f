-- ===== src/Cluster/History.antt =====
-- Every history of a cluster in src/cluster.rs: who can be a member while it lasts.
use plasmoid.Prelude.{
  ℕ, ◌+◌, ◌≡◌, refl, false, ◌&&◌, List, [], ◌∷◌, arith, nat_eq, Option-cases, inl, inr,
}
use plasmoid.Prelude.Map.{get, get-insert}
use plasmoid.Prelude.Set
use plasmoid.Prelude.Set.{contains-insert, contains-remove}
use plasmoid.Pid.{EndpointId}
use plasmoid.Cluster.{Cluster, new, quarantine, quarantine_ms, is_quarantined, learn, forget}
use plasmoid.Cluster.Roster.{is_barred, is_member, is_quarantined-Checks, learn-Learns}

-- What happens to a cluster, each some time after the last.
pub data Event : Type 0 where
  learns : List EndpointId → Event
  quarantines forgets checks : EndpointId → Event

abbrev pub step : Event → ℕ → Cluster → Cluster
step (learns nodes) now c = (learn nodes now c).1
step (quarantines n) now c = (quarantine n now c).1
step (forgets n) now c = (forget n c).1
step (checks n) now c = (is_quarantined n now c).1

-- The time after the events, and the cluster.
abbrev pub run : List (ℕ × Event) → ℕ → Cluster → ℕ × Cluster
run [] now c = (now, c)
run ((wait, e) ∷ es) now c = run es (now + wait) (step e (now + wait) c)

-- A node is no member of its own cluster, and no barred node is a member.
pub record IsSound (now : ℕ) (c : Cluster) : Type 0 where
  pub not_self : is_member c.me c ≡ false
  pub kept_out : (n : EndpointId) → (is_barred n now c && is_member n c) ≡ false

later-IsSound : (now wait : ℕ) (c : Cluster) → IsSound now c → IsSound (now + wait) c
later-IsSound now wait c h = record {
  not_self = h.not_self;
  kept_out = λ n. elim (Option-cases (get n c.quarantined)) [
    | inl e ↦ ground (arith, e)
    | inr (until, e) ↦ ground (arith, h.kept_out n, e)
  ];
}

step-IsSound : (e : Event) (now : ℕ) (c : Cluster) → IsSound now c → IsSound now (step e now c)
unfolding quarantine forget
step-IsSound (learns nodes) now c h =
    let l = learn-Learns nodes now c in
    record {
      not_self = ground (arith, l.me, l.members c.me, l.fresh_are c.me, h.not_self);
      kept_out = λ n. ground (arith, l.members n, l.barred n, l.fresh_are n, h.kept_out n);
    }
step-IsSound (quarantines m) now c h = record {
  not_self = ground (arith, contains-remove m c.me c.members, h.not_self);
  kept_out = λ n. ground (
    arith,
    contains-remove m n c.members,
    get-insert m n (now + quarantine_ms) c.quarantined,
    h.kept_out n,
  );
}
step-IsSound (forgets m) now c h = record {
  not_self = ground (arith, contains-remove m c.me c.members, h.not_self);
  kept_out = λ n. ground (arith, contains-remove m n c.members, h.kept_out n);
}
step-IsSound (checks m) now c h =
    let k = is_quarantined-Checks m now c in
    record {
      not_self = ground (arith, k.me, k.members, h.not_self);
      kept_out = λ n. ground (arith, k.members, k.barred n, h.kept_out n);
    }

run-keeps :
    (es : List (ℕ × Event)) (now : ℕ) (c : Cluster)
    → IsSound now c
    → IsSound (run es now c).0 (run es now c).1
run-keeps [] now c h = h
run-keeps ((wait, e) ∷ es) now c h =
    run-keeps es (now + wait) (step e (now + wait) c)
      (step-IsSound e (now + wait) c (later-IsSound now wait c h))

-- Whatever a node learns, forgets and quarantines, and whenever, it never is a member of its own
-- cluster, and no node is a member while it is quarantined.
pub run-IsSound :
    (me : EndpointId) (es : List (ℕ × Event)) (now : ℕ)
    → IsSound (run es now (new me)).0 (run es now (new me)).1
unfolding new Set.contains get
run-IsSound me es now = run-keeps es now (new me) (record { not_self = refl; kept_out = λ n. refl })
