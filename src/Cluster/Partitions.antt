-- ===== src/Cluster/Partitions.antt =====
-- src/partitions.rs: reports of lost connections, and disconnecting on purpose.
-- The links are outside: what is sent and which links are closed is a list of effects.
use plasmoid.Prelude.{
  ℕ, ◌-◌, ◌*◌, Bool, true, false, not, ◌&&◌, Option, none, some, List, [], ◌∷◌, ◌++◌, map, leb, ltb,
  if◌then◌else◌, ◌==◌, nat_eq, filter, next_u64, Eq, ◌≡◌, ◌↔◌, arith,
}
use plasmoid.Prelude.Map.{Map, get, insert}
use plasmoid.Pid.{EndpointId}
use plasmoid.Cluster.{Cluster, quarantine, is_quarantined}

-- A reporter and the node that it lost.
pub record Loss : Type 0 where
  pub reporter : EndpointId
  pub lost : EndpointId

abbrev pub loss_beq : Loss → Loss → Bool
loss_beq a b = (a.reporter == b.reporter) && (a.lost == b.lost)

pub loss_beq_iff : (a b : Loss) → (loss_beq a b ≡ true) ↔ (a ≡ b)
loss_beq_iff a b = ground arith

instance abbrev pub loss_eq : Eq Loss
loss_eq = record { beq = loss_beq; beq_iff = loss_beq_iff }

-- `SEEN_RETENTION`, an hour.
abbrev pub seen_retention_ms : ℕ
seen_retention_ms = 60 * 60 * 1000

-- For each loss the highest operation handled, and when.
pub record Partitions : Type 0 where
  pub me : EndpointId
  pub next_op : ℕ
  pub seen : Map Loss (ℕ × ℕ)

-- `Partitions::new`
unfoldable pub new : EndpointId → Partitions
new me = record { me = me; next_op = 1; seen = [] }

abbrev pub is_recent : ℕ → Loss × (ℕ × ℕ) → Bool
is_recent now e = ltb (now - e.1.1) seen_retention_ms

abbrev pub accept_newer : Option (ℕ × ℕ) → Loss → ℕ → ℕ → Partitions → Bool × Partitions
accept_newer none loss op_id now p = (true, record p { seen = insert loss (op_id, now) p.seen })
accept_newer (some e) loss op_id now p =
    if leb op_id e.0
    then (false, p)
    else (true, record p { seen = insert loss (op_id, now) p.seen })

abbrev pub retain_recent : ℕ → Partitions → Partitions
retain_recent now p = record p { seen = filter (is_recent now) p.seen }

unfoldable pub accept : Loss → ℕ → ℕ → Partitions → Bool × Partitions
accept loss op_id now p =
    let kept = retain_recent now p in accept_newer (get loss kept.seen) loss op_id now kept

pub data Effect : Type 0 where
  send_lost : (to : EndpointId) (loss : Loss) (op_id : ℕ) → Effect
  send_remove : (to from : EndpointId) → Effect
  disconnect : EndpointId → Effect

pub record Node : Type 0 where
  pub cluster : Cluster
  pub partitions : Partitions

-- One turn of the loop of `spawn_loss_reporter`.
unfoldable pub on_loss : EndpointId → ℕ → Node → List Effect × Node
unfolding is_quarantined
on_loss lost now n =
    let checked = is_quarantined lost now n.cluster in
    let p = n.partitions in
    if checked.0 then ([], record n { cluster = checked.1 }) else (
      map (λ to. send_lost to (record { reporter = p.me; lost = lost }) p.next_op)
          (filter (λ m. not (m == lost)) checked.1.members),
      record { cluster = checked.1; partitions = record p { next_op = next_u64 p.next_op } },
    )

unfoldable pub disconnect_deliberately : EndpointId → ℕ → Node → List Effect × Node
unfolding quarantine
disconnect_deliberately target now n = (
  send_remove target n.cluster.me ∷ disconnect target ∷ [],
  record n { cluster = (quarantine target now n.cluster).1 },
)

-- Whom a report makes this node drop: the node reported lost, or the reporter if that is us.
unfoldable pub target_of : Loss → Partitions → EndpointId
target_of loss p = if loss.lost == p.me then loss.reporter else loss.lost

unfoldable pub flood : Loss → ℕ → Cluster → List Effect
flood loss op_id c =
    map (λ to. send_lost to loss op_id)
      (filter (λ m. not (m == loss.reporter) && not (m == loss.lost)) c.members)

unfoldable pub on_lost_connection : Loss → ℕ → ℕ → Node → List Effect × Node
unfolding accept target_of flood disconnect_deliberately
on_lost_connection loss op_id now n =
    let accepted = accept loss op_id now n.partitions in
    let noted = record n { partitions = accepted.1 } in
    let target = target_of loss accepted.1 in
    let dropped = disconnect_deliberately target now noted in
    let flooded = flood loss op_id n.cluster in
    if accepted.0
    then (if target == accepted.1.me then (flooded, noted) else (flooded ++ dropped.0, dropped.1))
    else ([], noted)

unfoldable pub on_remove_connection : EndpointId → ℕ → Node → List Effect × Node
unfolding disconnect_deliberately
on_remove_connection from now n = disconnect_deliberately from now n
