-- ===== src/Sdk/Supervisor/Window.antt =====
-- The queue of restart times that both supervisors of crates/plasmoid-sdk/src/supervisor.rs keep.
use plasmoid.Prelude.{
  ℕ, zero, suc, ◌≤◌, ◌≡◌, refl, ◌∙◌, List, [], ◌∷◌, ◌++◌, arith, leb, ltb, filter, append_assoc,
  append-nil, Bool-cases, inl, inr,
}
use plasmoid.Sdk.Spec.{forget_restarts_before}
use plasmoid.Sdk.Supervisor.{push_restarts}

-- Times in order, from `lo` to `hi`.
abbrev pub IsAscending : ℕ → ℕ → List ℕ → Type 0
IsAscending lo hi [] = lo ≤ hi
IsAscending lo hi (t ∷ ts) = (lo ≤ t) × IsAscending t hi ts

abbrev pub replicate : ℕ → ℕ → List ℕ
replicate zero t = []
replicate (suc n) t = t ∷ replicate n t

pub push_restarts-append :
    (n now : ℕ) (ts : List ℕ) → push_restarts n now ts ≡ ts ++ replicate n now
unfolding push_restarts
push_restarts-append zero now ts = rw append-nil
push_restarts-append (suc n) now ts =
    push_restarts-append n now (ts ++ now ∷ []) ∙ append_assoc ts (now ∷ []) (replicate n now)

IsAscending-replicate : (lo now n : ℕ) → lo ≤ now → IsAscending lo now (replicate n now)
IsAscending-replicate lo now zero h = h
IsAscending-replicate lo now (suc n) h = (h, IsAscending-replicate now now n (omega arith))

pub IsAscending-append :
    (lo hi now n : ℕ) (ts : List ℕ)
    → hi ≤ now
    → IsAscending lo hi ts
    → IsAscending lo now (ts ++ replicate n now)
IsAscending-append lo hi now n [] h a = IsAscending-replicate lo now n (omega arith)
IsAscending-append lo hi now n (t ∷ ts) h a = (a.0, IsAscending-append t hi now n ts h a.1)

filter-above :
    (cutoff lo hi : ℕ) (ts : List ℕ)
    → cutoff ≤ lo
    → IsAscending lo hi ts
    → filter (λ t. leb cutoff t) ts ≡ ts
filter-above cutoff lo hi [] h a = refl
filter-above cutoff lo hi (t ∷ ts) h a =
    ground (arith, a.0, filter-above cutoff t hi ts (omega (arith, a.0)) a.1)

-- In a queue in order, dropping from the front while it is too old drops exactly the old ones.
pub forget_restarts_before-filter :
    (cutoff lo hi : ℕ) (ts : List ℕ)
    → IsAscending lo hi ts
    → forget_restarts_before cutoff ts ≡ filter (λ t. leb cutoff t) ts
unfolding forget_restarts_before
forget_restarts_before-filter cutoff lo hi [] a = refl
forget_restarts_before-filter cutoff lo hi (t ∷ ts) a = ground (
  arith,
  forget_restarts_before-filter cutoff t hi ts a.1,
  λ (h : cutoff ≤ t). filter-above cutoff t hi ts h a.1,
)

IsAscending-below :
    (lo lo' hi : ℕ) (ts : List ℕ) → lo' ≤ lo → IsAscending lo hi ts → IsAscending lo' hi ts
IsAscending-below lo lo' hi [] h a = omega arith
IsAscending-below lo lo' hi (t ∷ ts) h a = (omega (arith, a.0), a.1)

pub IsAscending-forget :
    (cutoff lo hi : ℕ) (ts : List ℕ)
    → IsAscending lo hi ts
    → IsAscending lo hi (forget_restarts_before cutoff ts)
unfolding forget_restarts_before
IsAscending-forget cutoff lo hi [] a = a
IsAscending-forget cutoff lo hi (t ∷ ts) a = elim (Bool-cases (ltb t cutoff)) [
  | inl old ↦ rw old (IsAscending-below t lo hi _ a.0 (IsAscending-forget cutoff t hi ts a.1))
  | inr kept ↦ rw kept a
]
