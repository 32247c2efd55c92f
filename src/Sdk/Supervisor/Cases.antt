-- ===== src/Sdk/Supervisor/Cases.antt =====
-- The ways that `on_child_exit` of crates/plasmoid-sdk/src/supervisor.rs can go.
use plasmoid.Prelude.{
  ℕ, ◌≡◌, String, true, Option, none, some, List, [], inl, inr, Bool-cases, Option-cases,
}
use plasmoid.Sdk.Spec.{ExitReason, ChildSpec, Action, should_restart}
use plasmoid.Sdk.Supervisor.{
  Supervisor, index_of, set_stopped, restart_or_give_up, child_at, on_found, on_child_exit,
}

-- The state with the dead child's flag cleared.
abbrev pub without : ℕ → Supervisor → Supervisor
without idx s = record s { running = set_stopped idx s.running }

-- The exit is of the child at `idx`, and its restart type asks for a restart.
pub record IsDue (id : String) (reason : ExitReason) (idx : ℕ) (c : ChildSpec) (s : Supervisor)
    : Type 0 where
  pub found : index_of id s.children ≡ some idx
  pub spec : child_at s.children idx ≡ some c
  pub due : should_restart c.restart reason ≡ true

module _ (id : String) (reason : ExitReason) (now : ℕ) where
  pub on_child_exit-due :
      (idx : ℕ) (c : ChildSpec) (s : Supervisor)
      → IsDue id reason idx c s
      → on_child_exit id reason now s ≡ restart_or_give_up idx now (without idx s)
  unfolding on_child_exit on_found
  on_child_exit-due idx c s d = rw (d.found, on_found, d.spec, d.due)

  on_found-cases {ℓ} :
      (P : List Action × Supervisor → Type ℓ) (s : Supervisor) (idx : ℕ) (o : Option ChildSpec)
      → child_at s.children idx ≡ o
      → P ([], without idx s)
      → ((c : ChildSpec)
          → child_at s.children idx ≡ some c
          → should_restart c.restart reason ≡ true
          → P (restart_or_give_up idx now (without idx s)))
      → P (on_found (some idx) reason now s)
  unfolding on_found
  on_found-cases P s idx none e left due = rw (e, on_found) left
  on_found-cases P s idx (some c) e left due = elim (Bool-cases (should_restart c.restart reason)) [
    | inl again ↦ rw (e, on_found, again) (due c e again)
    | inr never ↦ rw (e, on_found, never) left
  ]

  -- An exit is of no child, or of one that stays down, or of one that is due for a restart.
  pub on_child_exit-cases {ℓ} :
      (P : List Action × Supervisor → Type ℓ) (s : Supervisor)
      → P ([], s)
      → ((idx : ℕ) → P ([], without idx s))
      → ((idx : ℕ) (c : ChildSpec)
          → IsDue id reason idx c s
          → P (restart_or_give_up idx now (without idx s)))
      → P (on_child_exit id reason now s)
  unfolding on_child_exit on_found
  on_child_exit-cases P s unknown left due = elim (Option-cases (index_of id s.children)) [
    | inl e ↦ rw (e, on_found) unknown
    | inr (idx, e) ↦ rw e (
        on_found-cases P s idx (child_at s.children idx) (λ i. child_at s.children idx) (left idx)
          λ c spec again. due idx c (record { found = e; spec = spec; due = again }))
  ]
