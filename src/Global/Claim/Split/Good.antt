-- ===== src/Global/Claim/Split/Good.antt =====
-- What a claim of src/global.rs may rely on, and what it leaves to a rival, when `lock` takes two
-- steps and both claims lock one node first.
use plasmoid.Prelude.{
  ◌≡◌, ◌∙◌, refl, subst, String, true, false, not, ◌&&◌, ◌||◌, Option, none, some, List, [], ◌∷◌,
  ◌++◌, arith, ◌==◌, nat_eq, nat_beq_iff, string_eq, beq_refl, Bool-cases, inl, inr,
}
use plasmoid.Prelude.Map.{get, get-insert}
use plasmoid.Prelude.Set
use plasmoid.Pid.{Pid, EndpointId}
use plasmoid.Global.{apply, commit, unlock, write}
use plasmoid.Global.Claim.{
  Tables, Fate, lost, unanswered, answered, ask, claimed, is_taken, unsettled, locking, committing,
  unlocking, finished, step_claim,
}
use plasmoid.Global.Claim.Requests.{ask-table}
use plasmoid.Global.Claim.Reads.{lock_of, is_named}
use plasmoid.Global.Claim.Split.{SplitPhase, at, checked, after_check, split_step}
use plasmoid.Global.Claim.Split.Locks.{
  named-take_free, lock-take_free, put-table, named-untake, lock-untake,
}

module _ (name : String) (c : EndpointId) where
  -- The first member to ask is `c`, and both claimants come after it.
  abbrev pub Starts : EndpointId → EndpointId → EndpointId → List EndpointId → Type 0
  Starts me you node todo =
      (node ≡ c) × (Set.contains me todo ≡ true) × (Set.contains you todo ≡ true)

  -- The claimant holds the lock at `c`; it will come to its own node, or has been there; and it
  -- has not been at its rival's, or the name was free there and still is.
  abbrev pub Holding : EndpointId → EndpointId → List EndpointId → List EndpointId → Tables → Type 0
  Holding me you todo seen w =
      (lock_of name (w c) ≡ some me)
      × ((Set.contains me seen || Set.contains me todo) ≡ true)
      × ((Set.contains you todo || (Set.contains you seen && not (is_named name (w you)))) ≡ true)

  abbrev pub Asking : EndpointId → EndpointId → List EndpointId → List EndpointId → Tables → Type 0
  Asking me you [] [] w = false ≡ true
  Asking me you [] (node ∷ todo) w = Starts me you node todo
  Asking me you (h ∷ held) todo w = Holding me you todo (h ∷ held) w

  abbrev pub Good : EndpointId → EndpointId → SplitPhase → Tables → Type 0
  Good me you (at (locking todo held)) w = Asking me you held todo w
  Good me you (checked sent node todo []) w = Starts me you node todo
  Good me you (checked sent node todo (h ∷ held)) w =
      Holding me you todo ((h ∷ held) ++ node ∷ []) w
  Good me you (at (committing todo held)) w =
      (lock_of name (w c) ≡ some me) × ((Set.contains me todo || is_named name (w me)) ≡ true)
  Good me you (at (unlocking todo claimed)) w = is_named name (w me) ≡ true
  Good me you (at (finished claimed)) w = is_named name (w me) ≡ true
  Good me you _ w = Unit

  -- What a step of one claimant leaves to another, `me`.
  pub record Leaves (me : EndpointId) (w v : Tables) : Type 0 where
    pub lock : lock_of name (w c) ≡ some me → lock_of name (v c) ≡ some me
    pub named : (n : EndpointId) → is_named name (w n) ≡ true → is_named name (v n) ≡ true
    pub free :
        (n : EndpointId) → lock_of name (w c) ≡ some me → is_named name (v n) ≡ is_named name (w n)

  Leaves-refl : (me : EndpointId) (w : Tables) → Leaves me w w
  Leaves-refl me w = record { lock = λ l. l; named = λ n z. z; free = λ n l. refl }

  pub Leaves-Good :
      (me you : EndpointId) (phase : SplitPhase) (w v : Tables)
      → Leaves me w v
      → Good me you phase w
      → Good me you phase v
  Leaves-Good me you (at (locking [] [])) w v f g = g
  Leaves-Good me you (at (locking (node ∷ todo) [])) w v f g = g
  Leaves-Good me you (at (locking todo (h ∷ held))) w v f g =
      (f.lock g.0, g.1, ground (arith, g.2, f.free you g.0))
  Leaves-Good me you (checked sent node todo []) w v f g = g
  Leaves-Good me you (checked sent node todo (h ∷ held)) w v f g =
      (f.lock g.0, g.1, ground (arith, g.2, f.free you g.0))
  Leaves-Good me you (at (committing todo held)) w v f g =
      (f.lock g.0, ground (arith, g.1, f.free me g.0))
  Leaves-Good me you (at (unlocking todo claimed)) w v f g = f.named me g
  Leaves-Good me you (at (unlocking todo (is_taken p))) w v f g = tt
  Leaves-Good me you (at (unlocking todo unsettled)) w v f g = tt
  Leaves-Good me you (at (finished claimed)) w v f g = f.named me g
  Leaves-Good me you (at (finished (is_taken p))) w v f g = tt
  Leaves-Good me you (at (finished unsettled)) w v f g = tt

  module _ (pid : Pid) where
    pub split_step-Leaves :
        (me you : EndpointId) (fate : Fate) (phase : SplitPhase) (w : Tables)
        → (me == you) ≡ false
        → Good you me phase w
        → Leaves me w (split_step fate you name pid phase w).1
    unfolding split_step step_claim apply write
    split_step-Leaves me you fate (checked sent node todo held) w other g = record {
      lock = λ l.
          put-table name (λ t. lock_of name t ≡ some me) node c _ w l
            λ here.
              lock-take_free name me you (w node)
                (subst (λ n. lock_of name (w n) ≡ some me) ((nat_beq_iff c node).0 here) l);
      named = λ n z.
          put-table name (λ t. is_named name t ≡ true) node n _ w z
            λ here.
              named-take_free name you (w node)
              ∙ subst (λ m. is_named name (w m) ≡ true) ((nat_beq_iff n node).0 here) z;
      free = λ n l.
          put-table name (λ t. is_named name t ≡ is_named name (w n)) node n _ w refl
            λ here.
              named-take_free name you (w node)
              ∙ subst (λ m. is_named name (w m) ≡ is_named name (w n)) ((nat_beq_iff n node).0 here)
                  refl;
    }
    split_step-Leaves me you fate (at (locking [] held)) w other g = Leaves-refl me w
    split_step-Leaves me you fate (at (locking (node ∷ todo) held)) w other g = Leaves-refl me w
    split_step-Leaves me you fate (at (committing [] held)) w other g = Leaves-refl me w
    split_step-Leaves me you fate (at (committing (node ∷ todo) held)) w other g = record {
      lock = λ l. absurd (ground (arith, l, g.0, nat_beq_iff me you));
      named = λ n z.
          ask-table (λ t. is_named name t ≡ true) fate you node n (commit name pid you) w z
            λ _. ground (arith, get-insert name name pid (w n).names, beq_refl name);
      free = λ n l. absurd (ground (arith, l, g.0, nat_beq_iff me you));
    }
    split_step-Leaves me you fate (at (unlocking [] r)) w other g = Leaves-refl me w
    split_step-Leaves me you fate (at (unlocking (node ∷ todo) r)) w other g = record {
      lock = λ l.
          ask-table (λ t. lock_of name t ≡ some me) fate you node c (unlock name you) w l
            λ here. lock-untake name me you (w c) other l;
      named = λ n z.
          ask-table (λ t. is_named name t ≡ true) fate you node n (unlock name you) w z
            λ here. named-untake name you (w n) ∙ z;
      free = λ n l.
          ask-table (λ t. is_named name t ≡ is_named name (w n)) fate you node n (unlock name you) w
            refl λ here. named-untake name you (w n);
    }
    split_step-Leaves me you fate (at (finished r)) w other g = Leaves-refl me w

    pub own_commit :
        (fate : Fate) (me node : EndpointId) (w : Tables)
        → (me == node) ≡ true
        → is_named name ((ask fate me node (commit name pid me) w).1 me) ≡ true
    unfolding ask apply write
    own_commit fate me node w here =
        let there : (node == me) ≡ true =
          ground (arith, nat_beq_iff me node, nat_beq_iff node me) in
        rw (there, here) (ground (arith, get-insert name name pid (w node).names, beq_refl name))

    pub contains-snoc :
        (n node : EndpointId) (held : List EndpointId)
        → Set.contains n (held ++ node ∷ []) ≡ (Set.contains n held || (n == node))
    unfolding Set.contains
    contains-snoc n node [] = ground (arith, nat_beq_iff n node, nat_beq_iff node n)
    contains-snoc n node (h ∷ held) = ground (arith, contains-snoc n node held)

    seen :
        (me you node : EndpointId) (todo : List EndpointId) (h : EndpointId)
        (held : List EndpointId) (w : Tables)
        → get name (w node).names ≡ none
        → Holding me you (node ∷ todo) (h ∷ held) w
        → Holding me you todo ((h ∷ held) ++ node ∷ []) w
    unfolding Set.contains
    seen me you node todo h held w e g = (
      g.0,
      ground
          (arith, g.1, contains-snoc me node (h ∷ held), nat_beq_iff me node, nat_beq_iff node me),
      elim (Bool-cases (you == node)) [
        | inl here ↦ ground (
          arith,
          e,
          (nat_beq_iff you node).0 here,
          contains-snoc you node (h ∷ held),
          nat_beq_iff you node,
        )
        | inr away ↦ ground (
          arith,
          g.2,
          away,
          contains-snoc you node (h ∷ held),
          nat_beq_iff you node,
          nat_beq_iff node you,
        )
      ],
    )

    -- A node whose table says that the name is free is one more to hold.
    pub after_check-Good :
        (me you : EndpointId) (sent : Fate) (node : EndpointId) (todo held : List EndpointId)
        (w : Tables) (o : Option Pid)
        → get name (w node).names ≡ o
        → Asking me you held (node ∷ todo) w
        → Good me you (after_check sent o node todo held) w
    unfolding Set.contains
    after_check-Good me you lost node todo held w o e g = tt
    after_check-Good me you unanswered node todo held w (some p) e g = tt
    after_check-Good me you answered node todo held w (some p) e g = tt
    after_check-Good me you unanswered node todo [] w none e g = g
    after_check-Good me you answered node todo [] w none e g = g
    after_check-Good me you unanswered node todo (h ∷ held) w none e g =
        seen me you node todo h held w e g
    after_check-Good me you answered node todo (h ∷ held) w none e g =
        seen me you node todo h held w e g
