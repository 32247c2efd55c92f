-- ===== src/Global/Claim/Requests.antt =====
-- What a request of a claim in src/global.rs does to the table of each node.
use plasmoid.Prelude.{
  ◌≡◌, subst, true, if◌then◌else◌, ◌==◌, nat_eq, string_eq, Bool-cases, inl, inr,
}
use plasmoid.Pid.{EndpointId}
use plasmoid.Global.{GlobalNames, GlobalRequest, apply}
use plasmoid.Global.Claim.{Tables, Fate, lost, unanswered, answered, ask, ask_remote, put}

-- A request leaves the table of each node as it was, or applies there.
pub ask-table :
    (P : GlobalNames → Type 0) (fate : Fate) (me node n : EndpointId) (req : GlobalRequest)
    (w : Tables)
    → P (w n)
    → ((n == node) ≡ true → P (apply req (w n)).1)
    → P ((ask fate me node req w).1 n)
unfolding ask
ask-table P fate me node n req w same hit = by_fate (if node == me then answered else fate)
  where
    here : P (put node (apply req (w node)).1 w n)
    here = elim (Bool-cases (n == node)) [
      | inr away ↦ rw away same
      | inl at_n ↦
          rw at_n (subst (λ m. P (apply req (w m)).1) ((nat_eq.beq_iff n node).0 at_n) (hit at_n))
    ]

    by_fate : (f : Fate) → P ((ask_remote f node req w).1 n)
    by_fate lost = same
    by_fate unanswered = here
    by_fate answered = here
