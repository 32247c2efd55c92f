-- ===== src/Cluster/Cascade.antt =====
-- Why a flood of reports in src/partitions.rs settles.
use plasmoid.Prelude.{
  ℕ, ◌+◌, ◌-◌, ◌<◌, ◌≤◌, ◌≡◌, refl, true, false, Option, none, some, List, [], ◌∷◌, ◌++◌, arith,
  ltb, leb, ◌==◌, nat_eq, filter, Bool-cases, inl, inr,
}
use plasmoid.Prelude.Map.{Map, get, insert, get-insert, get-insert_self}
use plasmoid.Prelude.Set
use plasmoid.Prelude.Set.{contains-remove}
use plasmoid.Pid.{EndpointId}
use plasmoid.Cluster.{learn}
use plasmoid.Cluster.Partitions.{
  Loss, loss_eq, loss_beq_iff, Partitions, Node, is_recent, retain_recent, accept_newer, accept,
  seen_retention_ms, on_loss, Effect, send_remove, disconnect,
}

get-retain :
    (loss : Loss) (now : ℕ) (m : Map Loss (ℕ × ℕ)) (op at : ℕ)
    → get loss m ≡ some (op, at)
    → ltb (now - at) seen_retention_ms ≡ true
    → get loss (filter (is_recent now) m) ≡ some (op, at)
unfolding get
get-retain loss now [] op at e r = absurd (cc)
get-retain loss now ((l, v) ∷ m) op at e r = elim (Bool-cases (l == loss)) [
  | inl same ↦ let v_is : v ≡ (op, at) = ground (arith, e, same) in rw v_is (rw r (rw same refl))
  | inr other ↦
      let rest = get-retain loss now m op at (ground (arith, e, other)) r in
      elim (Bool-cases (ltb (now - v.1) seen_retention_ms)) [
        | inl kept ↦ rw (kept, other) rest
        | inr old ↦ rw old rest
      ]
]

-- A report of the loss with this operation or a later one was handled, no earlier than `t`.
pub record Handled (loss : Loss) (op_id t : ℕ) (p : Partitions) : Type 0 where
  pub op : ℕ
  pub at : ℕ
  pub entry : get loss p.seen ≡ some (op, at)
  pub newer : op_id ≤ op
  pub since : t ≤ at

abbrev pub Report : Type 0
Report = Loss × (ℕ × ℕ)

module _ (loss : Loss) (op_id t : ℕ) where
  insert-Handled :
      (other : Loss) (op2 now : ℕ) (q : Partitions)
      → t ≤ now
      → Handled loss op_id t q
      → ((other == loss) ≡ true → op_id ≤ op2)
      → Handled loss op_id t (record q { seen = insert other (op2, now) q.seen })
  insert-Handled other op2 now q late h newer = elim (Bool-cases (other == loss)) [
    | inl same ↦ record {
      op = op2;
      at = now;
      entry = ground (arith, get-insert other loss (op2, now) q.seen, same);
      newer = newer same;
      since = late;
    }
    | inr away ↦ record {
      op = h.op;
      at = h.at;
      entry = ground (arith, get-insert other loss (op2, now) q.seen, away, h.entry);
      newer = h.newer;
      since = h.since;
    }
  ]

  accept_newer-Handled :
      (o : Option (ℕ × ℕ)) (other : Loss) (op2 now : ℕ) (q : Partitions)
      → get other q.seen ≡ o
      → t ≤ now
      → Handled loss op_id t q
      → Handled loss op_id t (accept_newer o other op2 now q).1
  accept_newer-Handled none other op2 now q e late h =
      insert-Handled other op2 now q late h
        λ same. absurd (ground (arith, e, h.entry, loss_beq_iff other loss, same))
  accept_newer-Handled (some v) other op2 now q e late h = elim (Bool-cases (leb op2 v.0)) [
    | inl old ↦ rw old h
    | inr new ↦ rw new (
        insert-Handled other op2 now q late h
          λ same. ground (arith, e, h.entry, h.newer, loss_beq_iff other loss, same, new))
  ]

  accept-Handled :
      (other : Loss) (op2 wait : ℕ) (p : Partitions)
      → wait < seen_retention_ms
      → Handled loss op_id t p
      → Handled loss op_id t (accept other op2 (t + wait) p).1
  unfolding accept
  accept-Handled other op2 wait p soon h =
      accept_newer-Handled _ other op2 (t + wait) (retain_recent (t + wait) p) refl (omega arith)
        (record {
          op = h.op;
          at = h.at;
          entry =
              get-retain loss (t + wait) p.seen h.op h.at h.entry (ground (arith, h.since, soon));
          newer = h.newer;
          since = h.since;
        })

  -- Reports after the time `t`, each with how long after it.
  abbrev pub hear : List Report → Partitions → Partitions
  hear [] p = p
  hear ((other, (op2, wait)) ∷ rs) p = hear rs (accept other op2 (t + wait) p).1

  abbrev pub WithinHour : List Report → Type 0
  WithinHour [] = Unit
  WithinHour ((other, (op2, wait)) ∷ rs) = (wait < seen_retention_ms) × WithinHour rs

  hear-Handled :
      (rs : List Report) (p : Partitions)
      → WithinHour rs
      → Handled loss op_id t p
      → Handled loss op_id t (hear rs p)
  hear-Handled [] p soon h = h
  hear-Handled ((other, (op2, wait)) ∷ rs) p soon h =
      hear-Handled rs (accept other op2 (t + wait) p).1 soon.1
        (accept-Handled other op2 wait p soon.0 h)

  accepted-Handled :
      (p : Partitions)
      → (accept loss op_id t p).0 ≡ true
      → Handled loss op_id t (accept loss op_id t p).1
  unfolding accept
  accepted-Handled p agreed = opened (get loss (retain_recent t p).seen) agreed
    where
      fresh :
          (q : Partitions)
          → Handled loss op_id t (record q { seen = insert loss (op_id, t) q.seen })
      fresh q = record {
        op = op_id;
        at = t;
        entry = get-insert_self loss (op_id, t) q.seen;
        newer = omega arith;
        since = omega arith;
      }

      opened :
          (o : Option (ℕ × ℕ))
          → (accept_newer o loss op_id t (retain_recent t p)).0 ≡ true
          → Handled loss op_id t (accept_newer o loss op_id t (retain_recent t p)).1
      opened none y = fresh (retain_recent t p)
      opened (some v) y = elim (Bool-cases (leb op_id v.0)) [
        | inl old ↦ absurd (ground (arith, y, old))
        | inr new ↦ rw new (fresh (retain_recent t p))
      ]

  refuses :
      (op2 wait : ℕ) (p : Partitions)
      → op2 ≤ op_id
      → wait < seen_retention_ms
      → Handled loss op_id t p
      → (accept loss op2 (t + wait) p).0 ≡ false
  unfolding accept
  refuses op2 wait p older soon h =
      rw (get-retain loss (t + wait) p.seen h.op h.at h.entry (ground (arith, h.since, soon)))
        (ground (arith, older, h.newer))

  -- A report that was accepted is accepted once: however it is flooded, with whatever other
  -- reports between, no copy of it and no earlier report of that loss is accepted within an hour.
  pub accept-once :
      (rs : List Report) (op2 wait : ℕ) (p : Partitions)
      → (accept loss op_id t p).0 ≡ true
      → WithinHour rs
      → op2 ≤ op_id
      → wait < seen_retention_ms
      → (accept loss op2 (t + wait) (hear rs (accept loss op_id t p).1)).0 ≡ false
  accept-once rs op2 wait p agreed soon older before =
      refuses op2 wait (hear rs (accept loss op_id t p).1) older before
        (hear-Handled rs (accept loss op_id t p).1 soon (accepted-Handled p agreed))

-- The effects end with the target told to remove this node, and disconnected.
abbrev pub Drops : EndpointId → EndpointId → List Effect → Type 0
Drops target me effects =
    (before : List Effect) × (effects ≡ before ++ send_remove target me ∷ disconnect target ∷ [])

-- A node that was dropped is neither reported when its link ends nor learned again.
abbrev pub IsSilent : EndpointId → List EndpointId → ℕ → Node → Type 0
IsSilent target nodes now n =
    ((on_loss target now n).0 ≡ []) × (Set.contains target (learn nodes now n.cluster).0 ≡ false)
