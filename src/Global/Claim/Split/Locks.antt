-- ===== src/Global/Claim/Split/Locks.antt =====
-- What the second step of a lock request, and an unlock, of src/global.rs do to a table.
use plasmoid.Prelude.{
  ◌≡◌, ◌⊎◌, refl, String, true, false, none, some, List, [], ◌∷◌, ◌++◌, arith, ◌==◌, nat_eq,
  nat_beq_iff, string_eq, beq_refl, Bool-cases, Option-cases, inl, inr,
}
use plasmoid.Prelude.Map.{get, get-insert}
use plasmoid.Pid.{EndpointId}
use plasmoid.Global.{GlobalNames, lock_unless_taken, untake}
use plasmoid.Global.Claim.{
  Tables, put, Fate, lost, unanswered, answered, unsettled, locking, unlocking, after_lock,
}
use plasmoid.Global.Claim.Reads.{lock_of, is_named}
use plasmoid.Global.Claim.Split.{replied}

module _ (name : String) where
  -- The second step of a lock request.
  abbrev pub take_free : EndpointId → GlobalNames → GlobalNames
  take_free holder g = (lock_unless_taken none name holder g).1

  pub named-take_free :
      (holder : EndpointId) (g : GlobalNames) → is_named name (take_free holder g) ≡ is_named name g
  named-take_free holder g = ground arith

  pub lock-take_free :
      (who holder : EndpointId) (g : GlobalNames)
      → lock_of name g ≡ some who
      → lock_of name (take_free holder g) ≡ some who
  lock-take_free who holder g h =
      ground (arith, h, get-insert name name holder g.locks, nat_beq_iff who holder)

  pub named-untake :
      (holder : EndpointId) (g : GlobalNames)
      → is_named name (untake name holder g) ≡ is_named name g
  unfolding untake
  named-untake holder g = ground arith

  pub lock-untake :
      (who holder : EndpointId) (g : GlobalNames)
      → (who == holder) ≡ false
      → lock_of name g ≡ some who
      → lock_of name (untake name holder g) ≡ some who
  unfolding untake
  lock-untake who holder g other h = ground (arith, h, other)

  -- The second step fails, or it has the lock.
  pub after_lock-take_free :
      (sent : Fate) (me node : EndpointId) (todo held : List EndpointId) (g : GlobalNames)
      → (after_lock (replied sent (lock_unless_taken none name me g).0) node todo held
          ≡ unlocking held unsettled)
        ⊎ ((after_lock (replied sent (lock_unless_taken none name me g).0) node todo held
              ≡ locking todo (held ++ node ∷ []))
            × (lock_of name (take_free me g) ≡ some me))
  after_lock-take_free lost me node todo held g = inl refl
  after_lock-take_free unanswered me node todo held g = inl refl
  after_lock-take_free answered me node todo held g = elim (Option-cases (get name g.locks)) [
    | inl e ↦ rw e (inr (refl, ground (arith, e, get-insert name name me g.locks, beq_refl name)))
    | inr (h, e) ↦ elim (Bool-cases (h == me)) [
      | inl own ↦
          rw (e, own)
            (inr (refl, ground (arith, e, get-insert name name me g.locks, beq_refl name)))
      | inr other ↦ rw (e, other) (inl refl)
    ]
  ]

  pub put-table :
      (P : GlobalNames → Type 0) (node n : EndpointId) (g : GlobalNames) (w : Tables)
      → P (w n)
      → ((n == node) ≡ true → P g)
      → P (put node g w n)
  put-table P node n g w same hit = elim (Bool-cases (n == node)) [
    | inl here ↦ rw here (hit here)
    | inr away ↦ rw away same
  ]
