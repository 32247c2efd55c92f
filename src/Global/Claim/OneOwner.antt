-- ===== src/Global/Claim/OneOwner.antt =====
-- Two nodes that claim one name at once in src/global.rs: at most one of them gets it.
use plasmoid.Prelude.{
  ◌≡◌, refl, sym, subst, String, Bool, true, false, ◌&&◌, ◌||◌, List, [], ◌∷◌, ◌++◌, arith, ◌==◌,
  nat_eq, nat_beq_iff, beq_refl, string_eq, Bool-cases, Option, none, some, inl, inr,
}
use plasmoid.Prelude.Map.{get}
use plasmoid.Prelude.Set
use plasmoid.Pid.{Pid, EndpointId}
use plasmoid.Global.{apply, commit, unlock, write}
use plasmoid.Global.Claim.{
  Tables, put, Fate, lost, unanswered, answered, claimed, is_taken, unsettled, locking, committing,
  unlocking, finished, step_claim,
}
use plasmoid.Global.Claim.Requests.{ask-table}
use plasmoid.Global.Claim.Reads.{lock_of, is_named}
use plasmoid.Global.Claim.Split.{SplitPhase, at, checked, after_check, split_step}
use plasmoid.Global.Claim.Split.Locks.{
  take_free, named-take_free, lock-take_free, after_lock-take_free, put-table, named-untake,
}
use plasmoid.Global.Claim.Split.Good.{
  Good, Leaves-Good, split_step-Leaves, own_commit, after_check-Good,
}

-- The claim got every lock, and did not give up.
abbrev pub has_won : SplitPhase → Bool
has_won (at (committing todo held)) = true
has_won (at (unlocking todo claimed)) = true
has_won (at (finished claimed)) = true
has_won _ = false

-- Two claims and the tables of all nodes.
pub record Rivals : Type 0 where
  pub first : SplitPhase
  pub second : SplitPhase
  pub tables : Tables

-- Whose turn it is, with the fate of the request that it makes.
pub data Turn : Type 0 where
  first_turn second_turn : Fate → Turn

module _ (name : String) (p q : Pid) (a b : EndpointId) where
  abbrev pub step : Turn → Rivals → Rivals
  step (first_turn fate) s =
      let next = split_step fate a name p s.first s.tables in
      record { first = next.0; second = s.second; tables = next.1 }
  step (second_turn fate) s =
      let next = split_step fate b name q s.second s.tables in
      record { first = s.first; second = next.0; tables = next.1 }

  abbrev pub run : List Turn → Rivals → Rivals
  run [] s = s
  run (t ∷ ts) s = run ts (step t s)

module _ (name : String) (c : EndpointId) (pid : Pid) where
  lock-put :
      (me node : EndpointId) (w : Tables)
      → lock_of name (w c) ≡ some me
      → lock_of name (put node (take_free name me (w node)) w c) ≡ some me
  lock-put me node w l =
      put-table name (λ t. lock_of name t ≡ some me) node c _ w l
        λ here.
          lock-take_free name me me (w node)
            (subst (λ n. lock_of name (w n) ≡ some me) ((nat_beq_iff c node).0 here) l)

  named-put :
      (me node n : EndpointId) (w : Tables)
      → is_named name (put node (take_free name me (w node)) w n) ≡ is_named name (w n)
  named-put me node n w =
      put-table name (λ t. is_named name t ≡ is_named name (w n)) node n _ w refl
        λ here.
          subst (λ m. is_named name (take_free name me (w node)) ≡ is_named name (w m))
            (sym ((nat_beq_iff n node).0 here)) (named-take_free name me (w node))

  locked-Good :
      (me you node : EndpointId) (todo held : List EndpointId) (sent : Fate) (w : Tables)
      → lock_of name (take_free name me (w node)) ≡ some me
      → Good name c me you (checked sent node todo held) w
      → Good name c me you
          (at (locking todo (held ++ node ∷ [])))
          (put node (take_free name me (w node)) w)
  unfolding Set.contains
  locked-Good me you node todo [] sent w l g = (
    subst (λ n. lock_of name (put node (take_free name me (w node)) w n) ≡ some me) g.0
        (rw (beq_refl node) l),
    ground (arith, g.1),
    ground (arith, g.2),
  )
  locked-Good me you node todo (h ∷ held) sent w l g =
      (lock-put me node w g.0, g.1, ground (arith, g.2, named-put me node you w))

  pub split_step-Good :
      (me you : EndpointId) (fate : Fate) (phase : SplitPhase) (w : Tables)
      → Good name c me you phase w
      → Good name c me you
          (split_step fate me name pid phase w).0
          (split_step fate me name pid phase w).1
  unfolding split_step step_claim apply write Set.contains
  split_step-Good me you fate (checked sent node todo held) w g =
      elim (after_lock-take_free name sent me node todo held (w node)) [
        | inl e ↦ rw e tt
        | inr (e, l) ↦ rw e (locked-Good me you node todo held sent w l g)
      ]
  split_step-Good me you fate (at (locking [] [])) w g = absurd (cc)
  split_step-Good me you fate (at (locking [] (h ∷ held))) w g = (g.0, ground (arith, g.1))
  split_step-Good me you fate (at (locking (node ∷ todo) held)) w g =
      after_check-Good name c pid me you _ node todo held w (get name (w node).names) refl g
  split_step-Good me you fate (at (committing [] held)) w g = ground (arith, g.1)
  split_step-Good me you fate (at (committing (node ∷ todo) held)) w g = (
    ask-table (λ t. lock_of name t ≡ some me) fate me node c (commit name pid me) w g.0 (λ _. g.0),
    elim (Bool-cases (me == node)) [
      | inl here ↦ ground (arith, own_commit name c pid fate me node w here)
      | inr away ↦
          ask-table (λ t. (Set.contains me todo || is_named name t) ≡ true) fate me node me
            (commit name pid me) w
            (ground (arith, g.1, away, nat_beq_iff me node, nat_beq_iff node me))
            λ here. absurd (ground (arith, away, here))
    ],
  )
  split_step-Good me you fate (at (unlocking [] claimed)) w g = g
  split_step-Good me you fate (at (unlocking [] (is_taken r))) w g = tt
  split_step-Good me you fate (at (unlocking [] unsettled)) w g = tt
  split_step-Good me you fate (at (unlocking (node ∷ todo) claimed)) w g =
      ask-table (λ t. is_named name t ≡ true) fate me node me (unlock name me) w g
        λ _. ground (arith, g, named-untake name me (w me))
  split_step-Good me you fate (at (unlocking (node ∷ todo) (is_taken r))) w g = tt
  split_step-Good me you fate (at (unlocking (node ∷ todo) unsettled)) w g = tt
  split_step-Good me you fate (at (finished claimed)) w g = g
  split_step-Good me you fate (at (finished (is_taken r))) w g = tt
  split_step-Good me you fate (at (finished unsettled)) w g = tt

  -- Who holds the lock that both ask for first, and found the rival's table without the name, sees
  -- that the rival has not won.
  rival-lost :
      (me you : EndpointId) (rival : SplitPhase) (w : Tables)
      → (me == you) ≡ false
      → lock_of name (w c) ≡ some me
      → is_named name (w you) ≡ false
      → Good name c you me rival w
      → has_won rival ≡ false
  rival-lost me you (checked sent node todo held) w other l free g = refl
  rival-lost me you (at (locking todo held)) w other l free g = refl
  rival-lost me you (at (committing todo held)) w other l free g =
      absurd (ground (arith, l, g.0, nat_beq_iff me you))
  rival-lost me you (at (unlocking todo claimed)) w other l free g =
      absurd (ground (arith, g, free))
  rival-lost me you (at (unlocking todo (is_taken r))) w other l free g = refl
  rival-lost me you (at (unlocking todo unsettled)) w other l free g = refl
  rival-lost me you (at (finished claimed)) w other l free g = absurd (ground (arith, g, free))
  rival-lost me you (at (finished (is_taken r))) w other l free g = refl
  rival-lost me you (at (finished unsettled)) w other l free g = refl

  after_check-lost :
      (sent : Fate) (o : Option Pid) (node : EndpointId) (todo held : List EndpointId)
      → has_won (after_check sent o node todo held) ≡ false
  after_check-lost lost o node todo held = refl
  after_check-lost unanswered none node todo held = refl
  after_check-lost unanswered (some r) node todo held = refl
  after_check-lost answered none node todo held = refl
  after_check-lost answered (some r) node todo held = refl

  split_step-exclusive :
      (me you : EndpointId) (fate : Fate) (phase rival : SplitPhase) (w : Tables)
      → (me == you) ≡ false
      → Good name c me you phase w
      → Good name c you me rival w
      → (has_won phase && has_won rival) ≡ false
      → (has_won (split_step fate me name pid phase w).0 && has_won rival) ≡ false
  unfolding split_step step_claim Set.contains
  split_step-exclusive me you fate (checked sent node todo held) rival w other g k x =
      elim (after_lock-take_free name sent me node todo held (w node)) [
        | inl e ↦ rw e refl
        | inr (e, l) ↦ rw e refl
      ]
  split_step-exclusive me you fate (at (locking [] [])) rival w other g k x = absurd (cc)
  split_step-exclusive me you fate (at (locking [] (h ∷ held))) rival w other g k x =
      rival-lost me you rival w other g.0 (ground (arith, g.2)) k
  split_step-exclusive me you fate (at (locking (node ∷ todo) held)) rival w other g k x =
      rw (after_check-lost _ (get name (w node).names) node todo held) refl
  split_step-exclusive me you fate (at (committing [] held)) rival w other g k x = x
  split_step-exclusive me you fate (at (committing (n ∷ todo) held)) rival w other g k x = x
  split_step-exclusive me you fate (at (unlocking [] claimed)) rival w other g k x = x
  split_step-exclusive me you fate (at (unlocking [] (is_taken r))) rival w other g k x = x
  split_step-exclusive me you fate (at (unlocking [] unsettled)) rival w other g k x = x
  split_step-exclusive me you fate (at (unlocking (n ∷ todo) claimed)) rival w other g k x = x
  split_step-exclusive me you fate (at (unlocking (n ∷ todo) (is_taken r))) rival w other g k x = x
  split_step-exclusive me you fate (at (unlocking (n ∷ todo) unsettled)) rival w other g k x = x
  split_step-exclusive me you fate (at (finished r)) rival w other g k x = x

module _ (name : String) (c : EndpointId) (p q : Pid) (a b : EndpointId)
    (apart : (a == b) ≡ false) where
  record RivalsGood (s : Rivals) : Type 0 where
    first_good : Good name c a b s.first s.tables
    second_good : Good name c b a s.second s.tables
    exclusive : (has_won s.first && has_won s.second) ≡ false

  apart_too : (b == a) ≡ false
  apart_too = ground (arith, apart, nat_eq.beq_iff a b, nat_eq.beq_iff b a)

  step-RivalsGood : (t : Turn) (s : Rivals) → RivalsGood s → RivalsGood (step name p q a b t s)
  step-RivalsGood (first_turn fate) s h = record {
    first_good = split_step-Good name c p a b fate s.first s.tables h.first_good;
    second_good =
        Leaves-Good name c b a s.second s.tables _
          (split_step-Leaves name c p b a fate s.first s.tables apart_too h.first_good)
          h.second_good;
    exclusive =
        split_step-exclusive name c p a b fate s.first s.second s.tables apart h.first_good
          h.second_good h.exclusive;
  }
  step-RivalsGood (second_turn fate) s h = record {
    first_good =
        Leaves-Good name c a b s.first s.tables _
          (split_step-Leaves name c q a b fate s.second s.tables apart h.second_good) h.first_good;
    second_good = split_step-Good name c q b a fate s.second s.tables h.second_good;
    exclusive = ground (
      arith,
      split_step-exclusive name c q b a fate s.second s.first s.tables apart_too h.second_good
          h.first_good (ground (arith, h.exclusive)),
    );
  }

  run-RivalsGood : (ts : List Turn) (s : Rivals) → RivalsGood s → RivalsGood (run name p q a b ts s)
  run-RivalsGood [] s h = h
  run-RivalsGood (t ∷ ts) s h = run-RivalsGood ts (step name p q a b t s) (step-RivalsGood t s h)

  -- Two different nodes claim one name at once, and both ask the same member first, with both of
  -- them among the members that they ask after it. In whatever order their steps are taken, those
  -- within a lock request included, whatever requests and replies get lost, and whatever the tables
  -- were, it never happens that both claims get all their locks; so at most one succeeds.
  pub rivals-one_winner :
      (ts : List Turn) (ms ns : List EndpointId) (w : Tables)
      → Set.contains a ms ≡ true
      → Set.contains b ms ≡ true
      → Set.contains a ns ≡ true
      → Set.contains b ns ≡ true
      → let s = run name p q a b ts (record {
        first = at (locking (c ∷ ms) []);
        second = at (locking (c ∷ ns) []);
        tables = w;
      }) in
        (has_won s.first && has_won s.second) ≡ false
  rivals-one_winner ts ms ns w am bm an bn =
      (run-RivalsGood ts _ (record {
        first_good = (refl, am, bm);
        second_good = (refl, bn, an);
        exclusive = refl;
      })).exclusive
